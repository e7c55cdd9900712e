-- ===== src/Worker/Dispatch/Pool/InOrder.antt =====
-- Running the jobs one after the other is one way for the pool to run them.
use mathlib.Core.WellFounded.{Acc}
use native.Mathlib.Decide.{dec_lt}
use nocap_crypt.Base.{
  ℕ, ◌+◌, ◌-◌, ◌%◌, ◌^◌, ◌<◌, ◌≡◌, refl, inl, inr, Bool, List, [], ◌∷◌, length, drop, map,
  length-drop, eq-nil, lt_wf, arith,
}
use nocap_crypt.Base.Result.{ok, Result-cases, ok_injective, not_ok}
use nocap_crypt.Core.Primitives.{Primitives}
use nocap_crypt.Core.Engine.{SectorEngine}
use nocap_crypt.Blockio.SectorIo.{Os, IsPosix, SectorFile, write_loop, write_at_exact, shrinks}
use nocap_crypt.Blockio.SectorIo.Writes.{write_round, write_end}
use nocap_crypt.Worker.Dispatch.{
  SectorRange, Transfer, byte_offset, prepare, process_one_range, process_in_order,
}
use nocap_crypt.Worker.Dispatch.Pool.{
  Task, pending, writing, Pool, launch, wrote, counted, Step, begin, write, finish, Reach, here,
  next,
}

module _ (os : Os) (posix : IsPosix os) (p : Primitives) (engine : SectorEngine) (data_len : ℕ)
    (encrypt : Bool) (input : SectorFile) where
  Reach-cons :
      {s t u : Pool}
      → Step os p engine data_len encrypt input s t
      → Reach os p engine data_len encrypt input t u
      → Reach os p engine data_len encrypt input s u
  Reach-cons st here = next here st
  Reach-cons st (next r st') = next (Reach-cons st r) st'

  pub Reach-trans :
      {s t u : Pool}
      → Reach os p engine data_len encrypt input s t
      → Reach os p engine data_len encrypt input t u
      → Reach os p engine data_len encrypt input s u
  Reach-trans r here = r
  Reach-trans r (next r' st) = next (Reach-trans r r') st

  -- The write loop of the first task, and its count.
  write_loop-Reach :
      (range : SectorRange) (after : List Task) (t : Transfer) (off : ℕ) (buf : List ℕ) (len : ℕ)
      (w : Acc ◌<◌ len) {sf : SectorFile}
      → length buf ≡ len
      → write_loop os t.output off buf len w ≡ ok sf
      → Reach os p engine data_len encrypt input
          (record { transfer = t; tasks = writing range off buf ∷ after })
          (record { transfer = counted (record t { output = sf }) range; tasks = after })
  write_loop-Reach range after t off buf len (Acc.intro _ smaller) {sf} size h =
      elim (dec_lt 0 len) [
        | yes more ↦
            let (n, e, pos, rest) = write_round os t.output off buf len smaller more h in
            Reach-cons (write [] after range off buf n refl (omega arith) e pos) (
              write_loop-Reach range after (wrote t off buf n) ((off + n) % 2 ^ 64) (drop n buf)
                (len - n) (smaller _ (shrinks os len n more pos)) (omega (arith, length-drop n buf))
                rest)
        | no done ↦
            let same = write_end os t.output off buf len smaller done h in
            let empty : buf ≡ [] = eq-nil buf (omega arith) in
            rw (empty, ← same) (next here (finish [] after range off refl))
      ]

  process_one_range-Reach :
      (range : SectorRange) (after : List Task) (t : Transfer) {t' : Transfer}
      → process_one_range os p engine data_len encrypt input range t ≡ ok t'
      → Reach os p engine data_len encrypt input
          (record { transfer = t; tasks = pending range ∷ after })
          (record { transfer = t'; tasks = after })
  unfolding process_one_range write_at_exact
  process_one_range-Reach range after t h =
      elim (Result-cases (prepare os p engine data_len encrypt input range)) [
        | inl (buf, e) ↦ elim (Result-cases (write_at_exact os t.output (byte_offset range) buf)) [
          | inl (sf, e') ↦
              let same = ok_injective (rw (e, e') at h) in
              Reach-cons (begin [] after range buf refl e) (
                rw (← same) (
                  write_loop-Reach range after t (byte_offset range) buf (length buf)
                    (lt_wf.apply (length buf)) refl e'))
          | inr (x, e') ↦ absurd (not_ok (rw (e, e') at h))
        ]
        | inr (x, e) ↦ absurd (not_ok (rw e at h))
      ]

  -- If `Synchronous` dispatch returns `Ok`, a pool could have come to the same output and counter.
  pub process_in_order-Reach :
      (ranges : List SectorRange) (t : Transfer) {t' : Transfer}
      → process_in_order os p engine data_len encrypt input ranges t ≡ ok t'
      → Reach os p engine data_len encrypt input
          (launch t ranges)
          (record { transfer = t'; tasks = [] })
  unfolding process_in_order
  process_in_order-Reach [] t h = rw (ok_injective h) here
  process_in_order-Reach (range ∷ ranges) t h =
      elim (Result-cases (process_one_range os p engine data_len encrypt input range t)) [
        | inl (t1, e) ↦
            Reach-trans (process_one_range-Reach range (map pending ranges) t e)
              (process_in_order-Reach ranges t1 (rw e at h))
        | inr (x, e) ↦ absurd (not_ok (rw e at h))
      ]
