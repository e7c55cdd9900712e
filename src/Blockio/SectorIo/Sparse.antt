-- ===== src/Blockio/SectorIo/Sparse.antt =====
-- What `create_sparse_output` makes of a path.
use nocap_crypt.Base.{
  ℕ, ◌-◌, ◌≤◌, ◌<◌, ◌≡◌, Bool, Option, none, some, List, [], length, take, replicate, get_elem?,
  length-append, length-take, length-replicate, get_elem?-append, get_elem?-take,
  get_elem?-replicate, arith,
}
use nocap_crypt.Blockio.SectorIo.{SectorFile, set_len, create_sparse_output}

-- What the path held before.
abbrev pub before : Option (List ℕ) → List ℕ
before none = []
before (some bytes) = bytes

set_len_lem :
    (sf : SectorFile) (len : ℕ)
    → (length (set_len sf len).file ≡ len)
      × ((i : ℕ)
          → i < len
          → i < length sf.file
          → get_elem? (set_len sf len).file i ≡ get_elem? sf.file i)
      × ((i : ℕ) → i < len → length sf.file ≤ i → get_elem? (set_len sf len).file i ≡ some 0)
unfolding set_len
set_len_lem sf len =
    let front = take len sf.file in
    let hole : List ℕ = replicate (len - length sf.file) 0 in
    (
      omega (
        arith,
        length-append front hole,
        length-take len sf.file,
        length-replicate {A = ℕ} (len - length sf.file) 0,
      ),
      λ i lt inside. ground (
        arith,
        get_elem?-append front hole i,
        length-take len sf.file,
        get_elem?-take len sf.file i,
      ),
      λ i lt behind. ground (
        arith,
        get_elem?-append front hole i,
        length-take len sf.file,
        get_elem?-replicate {A = ℕ} (len - length sf.file) 0 (i - length front),
      ),
    )

-- The output has the announced length. Bytes that the path held before are still there below that
-- length, since the file is not truncated first; the rest is a hole that reads as zeros.
pub create_sparse_output_lem :
    (existing : Option (List ℕ)) (direct : Bool) (len : ℕ)
    → let out = (create_sparse_output existing direct len).file in
      (length out ≡ len)
      × ((i : ℕ)
          → i < len
          → i < length (before existing)
          → get_elem? out i ≡ get_elem? (before existing) i)
      × ((i : ℕ) → i < len → length (before existing) ≤ i → get_elem? out i ≡ some 0)
unfolding create_sparse_output
create_sparse_output_lem none direct len = set_len_lem _ len
create_sparse_output_lem (some existing) direct len = set_len_lem _ len
