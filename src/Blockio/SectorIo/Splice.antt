-- ===== src/Blockio/SectorIo/Splice.antt =====
-- What a file holds after a write.
use nocap_crypt.Base.{
  ℕ, ◌+◌, ◌-◌, ◌≤◌, ◌≡◌, ap, ltb, if◌then◌else◌, some, List, [], ◌++◌, max, length, get_elem?, take,
  drop, replicate, length-take, length-replicate, length-append, length-drop, get_elem?-append,
  get_elem?-take, get_elem?-drop, get_elem?-replicate, get_elem?-none, get_elem?_ext, arith,
}
use nocap_crypt.Blockio.SectorIo.{splice}

-- Byte by byte: what was written, and around it what was there, a gap being zeros.
pub get_elem?-splice :
    (file : List ℕ) (off : ℕ) (bs : List ℕ) (i : ℕ)
    → get_elem? (splice file off bs) i ≡ (
        if ltb i off
        then (if ltb i (length file) then get_elem? file i else some 0)
        else if ltb i (off + length bs)
        then get_elem? bs (i - off)
        else get_elem? file i)
unfolding splice
get_elem?-splice file off bs i =
    let gap : List ℕ = replicate (off - length file) 0 in
    let after : List ℕ = drop (off + length bs) file in
    ground (
      arith,
      get_elem?-append (take off file) (gap ++ (bs ++ after)) i,
      get_elem?-append gap (bs ++ after) (i - length (take off file)),
      get_elem?-append bs after (i - length (take off file) - length gap),
      get_elem?-take off file i,
      get_elem?-replicate {A = ℕ} (off - length file) 0 (i - length (take off file)),
      get_elem?-drop (off + length bs) file (i - length (take off file) - length gap - length bs),
      length-take off file,
      length-replicate {A = ℕ} (off - length file) 0,
      get_elem?-none file i,
    )

pub length-splice :
    (file : List ℕ) (off : ℕ) (bs : List ℕ)
    → length (splice file off bs) ≡ max (length file) (off + length bs)
unfolding splice
length-splice file off bs =
    let gap : List ℕ = replicate (off - length file) 0 in
    let after : List ℕ = drop (off + length bs) file in
    omega (
      arith,
      length-append (take off file) (gap ++ (bs ++ after)),
      length-append gap (bs ++ after),
      length-append bs after,
      length-take off file,
      length-replicate {A = ℕ} (off - length file) 0,
      length-drop (off + length bs) file,
    )

-- Writing a front part, then the rest behind it, is writing the whole.
pub splice-splice :
    (file : List ℕ) (off n : ℕ) (bs : List ℕ)
    → n ≤ length bs
    → splice (splice file off (take n bs)) (off + n) (drop n bs) ≡ splice file off bs
splice-splice file off n bs h = get_elem?_ext _ _ λ i. ground (
  arith,
  get_elem?-splice file off bs i,
  get_elem?-splice (splice file off (take n bs)) (off + n) (drop n bs) i,
  get_elem?-splice file off (take n bs) i,
  length-splice file off (take n bs),
  length-take n bs,
  length-drop n bs,
  get_elem?-take n bs (i - off),
  get_elem?-drop n bs (i - (off + n)),
  ap (get_elem? bs) (index i),
)
  where
    index : (i : ℕ) → n + (i - (off + n)) ≡ max (i - off) n
    index i = omega arith

pub splice-nil : (file : List ℕ) (off : ℕ) → off ≤ length file → splice file off [] ≡ file
splice-nil file off h =
    get_elem?_ext (splice file off []) file λ i. ground (arith, get_elem?-splice file off [] i)
