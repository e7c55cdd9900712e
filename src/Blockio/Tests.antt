-- ===== src/Blockio/Tests.antt =====
-- The theorems on files and alignment at work.
use native.Mathlib.Decide.{dec_lt}
use nocap_crypt.Base.{
  ℕ, ◌≤◌, ◌<◌, ◌≡◌, ◌↔◌, refl, true, false, some, [], ◌∷◌, length, get_elem?, lt_wf, arith,
}
use nocap_crypt.Base.Result.{ok}
use nocap_crypt.Blockio.Alignment.{
  is_aligned, align_up, passes, check_alignment, align_up_least, check_alignment-passes,
}
use nocap_crypt.Blockio.Disk.{disk, disk-IsPosix, disk-IsReliable}
use nocap_crypt.Blockio.SectorIo.{
  SectorFile, read_at_exact, write_at_exact, write_loop, write_at, splice, create_sparse_output,
}
use nocap_crypt.Blockio.SectorIo.Sparse.{create_sparse_output_lem}
use nocap_crypt.Blockio.SectorIo.Exact.{ReadExact, read_at_exact-ReadExact}
use nocap_crypt.Blockio.SectorIo.Reliable.{write_at_exact-ok}
use nocap_crypt.Blockio.SectorIo.Writes.{write_at_exact-splice}

abbrev five : SectorFile
five = record { file = 1 ∷ 2 ∷ 3 ∷ 4 ∷ 5 ∷ []; direct_io_active = true }

abbrev five_written : SectorFile
five_written = record { file = 1 ∷ 2 ∷ 3 ∷ 8 ∷ 9 ∷ 7 ∷ []; direct_io_active = true }

write_five : write_at_exact disk five 3 (8 ∷ 9 ∷ 7 ∷ []) ≡ ok five_written
unfolding write_at_exact write_loop write_at splice lt_wf dec_lt
write_five = refl

read_at_exact-ReadExact_example :
    ReadExact disk (1 ∷ 2 ∷ 3 ∷ 4 ∷ 5 ∷ []) 3 4 (read_at_exact disk five 3 4)
read_at_exact-ReadExact_example = read_at_exact-ReadExact disk disk-IsPosix five 3 4 (omega arith)

write_at_exact-ok_example :
    (out : SectorFile) × (write_at_exact disk five 3 (8 ∷ 9 ∷ 7 ∷ []) ≡ ok out)
write_at_exact-ok_example =
    write_at_exact-ok disk disk-IsReliable disk-IsPosix five 3 (8 ∷ 9 ∷ 7 ∷ [])

write_at_exact-splice_example :
    five_written ≡ record five { file = splice five.file 3 (8 ∷ 9 ∷ 7 ∷ []) }
write_at_exact-splice_example =
    write_at_exact-splice disk disk-IsPosix five 3 (8 ∷ 9 ∷ 7 ∷ []) (omega arith) (omega arith)
      write_five

aligned_is_least :
    (up : ℕ) × (align_up 4097 4096 ≡ some up)
    × (is_aligned up 4096 ≡ true)
    × (4097 ≤ up)
    × ((other : ℕ) → 4097 ≤ other → is_aligned other 4096 ≡ true → up ≤ other)
aligned_is_least = align_up_least 4097 4096 (omega arith) (omega arith)

check_alignment-passes_example :
    (passes (check_alignment 8192 512 4096) ≡ true)
    ↔ ((align_up 8192 4096 ≡ some 8192) × (align_up 512 4096 ≡ some 512))
check_alignment-passes_example =
    check_alignment-passes 8192 512 4096 (omega arith) (omega arith) (omega arith)

sparse_zeros :
    let out = (create_sparse_output (some (6 ∷ 7 ∷ [])) false 4).file in
    (length out ≡ 4)
    × ((i : ℕ) → i < 4 → i < 2 → get_elem? out i ≡ get_elem? (6 ∷ 7 ∷ []) i)
    × ((i : ℕ) → i < 4 → 2 ≤ i → get_elem? out i ≡ some 0)
sparse_zeros = create_sparse_output_lem (some (6 ∷ 7 ∷ [])) false 4
