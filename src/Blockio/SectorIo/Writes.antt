-- ===== src/Blockio/SectorIo/Writes.antt =====
-- `write_at_exact` writes the whole buffer, however the system cuts the writes.
use mathlib.Core.Logic.{dif_pos, dif_neg}
use mathlib.Core.WellFounded.{Acc}
use native.Mathlib.Decide.{dec_lt}
use native.Mathlib.Bridge.{le_prop}
use nocap_crypt.Base.{
  ℕ, ◌+◌, ◌-◌, ◌%◌, ◌^◌, ◌≤◌, ◌<◌, ◌≡◌, refl, sym, ap, ◌∙◌, inl, inr, List, [], length, take, drop,
  length-take, length-drop, eq-nil, lt_wf, arith,
}
use nocap_crypt.Base.Result.{ok, Result-cases, ok_injective, not_ok}
use nocap_crypt.Blockio.SectorIo.{
  Os, IsPosix, SectorFile, splice, write_at, write_loop, write_at_exact, shrinks,
}
use nocap_crypt.Blockio.SectorIo.Splice.{length-splice, splice-splice, splice-nil}
use nocap_crypt.Blockio.SectorIo.Exact.{write_at-le}

module _ (os : Os) where
  -- A round of the write loop that succeeds: a write, then the rest.
  pub write_round :
      (sf : SectorFile) (off : ℕ) (buf : List ℕ) (len : ℕ) (smaller : (m : ℕ) → m < len → Acc ◌<◌ m)
      {out : SectorFile}
      → (more : 0 < len) → write_loop os sf off buf len (Acc.intro len smaller) ≡ ok out
      → (n : ℕ) × (write_at os sf off buf ≡ ok n)
        × (pos : 0 < n) × (write_loop os
              (record sf { file = splice sf.file off (take n buf) })
              ((off + n) % 2 ^ 64)
              (drop n buf)
              (len - n)
              (smaller _ (shrinks os len n more pos))
            ≡ ok out)
  unfolding write_loop
  write_round sf off buf len smaller more h = elim (Result-cases (write_at os sf off buf)) [
    | inl (n, e) ↦ elim (dec_lt 0 n) [
      | yes pos ↦ (n, e, pos, rw (dif_pos _ le_prop more, e, dif_pos _ le_prop pos) at h)
      | no stuck ↦ absurd (not_ok (rw (dif_pos _ le_prop more, e, dif_neg _ stuck) at h))
    ]
    | inr (x, e) ↦ absurd (not_ok (rw (dif_pos _ le_prop more, e) at h))
  ]

  pub write_end :
      (sf : SectorFile) (off : ℕ) (buf : List ℕ) (len : ℕ) (smaller : (m : ℕ) → m < len → Acc ◌<◌ m)
      {out : SectorFile}
      → ¬ (0 < len)
      → write_loop os sf off buf len (Acc.intro len smaller) ≡ ok out
      → sf ≡ out
  unfolding write_loop
  write_end sf off buf len smaller done h = ok_injective (rw (dif_neg _ done) at h)

  module _ (posix : IsPosix os) where
    write_loop-splice :
        (sf : SectorFile) (off : ℕ) (buf : List ℕ) (len : ℕ) (w : Acc ◌<◌ len) {out : SectorFile}
        → length buf ≡ len
        → off + len < 2 ^ 64
        → off ≤ length sf.file
        → write_loop os sf off buf len w ≡ ok out
        → out ≡ record sf { file = splice sf.file off buf }
    write_loop-splice sf off buf len (Acc.intro _ smaller) {out} size small inside h =
        elim (dec_lt 0 len) [
          | yes more ↦
              let (n, e, pos, rest) = write_round sf off buf len smaller more h in
              let le = write_at-le os posix sf off buf e in
              let sum : (off + n) % 2 ^ 64 ≡ off + n = omega arith in
              write_loop-splice (record sf { file = splice sf.file off (take n buf) })
                ((off + n) % 2 ^ 64) (drop n buf) (len - n) (smaller _ (shrinks os len n more pos))
                (omega (arith, length-drop n buf)) (omega arith)
                (omega (arith, length-splice sf.file off (take n buf), length-take n buf)) rest
              ∙ ap (λ (file : List ℕ). record sf { file = file })
                  (ap (λ k. splice (splice sf.file off (take n buf)) k (drop n buf)) sum
                    ∙ splice-splice sf.file off n buf le)
          | no done ↦
              let empty : buf ≡ [] = eq-nil buf (omega arith) in
              sym (write_end sf off buf len smaller done h)
              ∙ ap (λ (file : List ℕ). record sf { file = file })
                  (sym (ap (splice sf.file off) empty ∙ splice-nil sf.file off inside))
        ]

    -- On a POSIX system, at an offset not behind the file's end, and below offset 2 ^ 64: if
    -- `write_at_exact` returns `Ok`, the file has the whole buffer at the offset and is otherwise
    -- unchanged, however the system cut the writes.
    pub write_at_exact-splice :
        (sf : SectorFile) (off : ℕ) (buf : List ℕ) {out : SectorFile}
        → off + length buf < 2 ^ 64
        → off ≤ length sf.file
        → write_at_exact os sf off buf ≡ ok out
        → out ≡ record sf { file = splice sf.file off buf }
    unfolding write_at_exact
    write_at_exact-splice sf off buf small inside h =
        write_loop-splice sf off buf (length buf) (lt_wf.apply (length buf)) refl small inside h
