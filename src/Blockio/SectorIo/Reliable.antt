-- ===== src/Blockio/SectorIo/Reliable.antt =====
-- With a system whose calls do not fail, the exact transfers succeed.
use mathlib.Core.Logic.{dif_pos, dif_neg}
use mathlib.Core.WellFounded.{Acc}
use native.Mathlib.Decide.{dec_lt}
use native.Mathlib.Bridge.{le_prop}
use nocap_crypt.Base.{
  ℕ, ◌+◌, ◌-◌, ◌%◌, ◌^◌, ◌<◌, ◌≡◌, refl, inl, inr, true, false, ◌&&◌, ltb, ◌==◌, List, length, take,
  drop, length-drop, lt_wf, Bool-cases, arith,
}
use nocap_crypt.Base.Result.{ok}
use nocap_crypt.Blockio.SectorIo.{
  Os, IsPosix, IsReliable, SectorFile, splice, write_at, write_loop, write_at_exact, shrinks,
}
use nocap_crypt.Blockio.SectorIo.Exact.{FailedRead, write_at-le}

module _ (os : Os) (reliable : IsReliable os) where
  pub not_FailedRead : (file : List ℕ) (n : ℕ) → ¬ FailedRead os file n
  not_FailedRead file n (direct, off, len, e) = cc ((reliable.pread-ok direct file off len).1)

  pub write_at-ok :
      (sf : SectorFile) (off : ℕ) (buf : List ℕ)
      → (n : ℕ) × (write_at os sf off buf ≡ ok n) × (0 < length buf → 0 < n)
  unfolding write_at
  write_at-ok sf off buf = elim (Bool-cases (sf.direct_io_active && ltb 0 (length buf))) [
    | inl direct ↦ elim (Bool-cases (length buf % 4096 == 0)) [
      | inl aligned ↦
          let (n, e, pos) = reliable.pwrite-ok true sf.file off (length buf) in
          (n, rw (direct, aligned, e), pos)
      | inr ragged ↦
          let (n, e, pos) = reliable.pwrite-ok false sf.file off (length buf) in
          (n, rw (direct, ragged, reliable.open_plain-ok, e), pos)
    ]
    | inr plain ↦
        let (n, e, pos) = reliable.pwrite-ok sf.direct_io_active sf.file off (length buf) in
        (n, rw (plain, e), pos)
  ]

  module _ (posix : IsPosix os) where
    write_loop-ok :
        (sf : SectorFile) (off : ℕ) (buf : List ℕ) (len : ℕ) (w : Acc ◌<◌ len)
        → length buf ≡ len
        → (out : SectorFile) × (write_loop os sf off buf len w ≡ ok out)
    unfolding write_loop
    write_loop-ok sf off buf len (Acc.intro _ smaller) size = elim (dec_lt 0 len) [
      | yes more ↦
          let (n, e, progress) = write_at-ok sf off buf in
          let pos : 0 < n = progress (omega arith) in
          let le = write_at-le os posix sf off buf e in
          let (out, e') =
            write_loop-ok (record sf { file = splice sf.file off (take n buf) })
              ((off + n) % 2 ^ 64) (drop n buf) (len - n) (smaller _ (shrinks os len n more pos))
              (omega (arith, length-drop n buf)) in
          (out, rw (dif_pos _ le_prop more, e, dif_pos _ le_prop pos) e')
      | no done ↦ (sf, rw (dif_neg _ done))
    ]

    -- With a POSIX system whose calls do not fail, `write_at_exact` returns `Ok` for every buffer.
    pub write_at_exact-ok :
        (sf : SectorFile) (off : ℕ) (buf : List ℕ)
        → (out : SectorFile) × (write_at_exact os sf off buf ≡ ok out)
    unfolding write_at_exact
    write_at_exact-ok sf off buf =
        write_loop-ok sf off buf (length buf) (lt_wf.apply (length buf)) refl
