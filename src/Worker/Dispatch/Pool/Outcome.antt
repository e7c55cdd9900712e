-- ===== src/Worker/Dispatch/Pool/Outcome.antt =====
-- What a transfer leaves in the output, in every concurrency mode and for every interleaving.
use nocap_crypt.Base.{
  ℕ, ◌+◌, ◌-◌, ◌*◌, ◌^◌, ◌≤◌, ◌<◌, ◌≡◌, refl, sym, ap, ◌∙◌, inl, inr, Bool, List, [], ◌∷◌, ◌++◌,
  length, drop, get_elem?, get_elem?_ext, get_elem?-append, get_elem?-drop, map, arith,
}
use native.Mathlib.Decide.{dec_lt}
use nocap_crypt.Base.Bytes.{IsBytes}
use nocap_crypt.Base.Result.{ok, ok_injective, not_ok}
use nocap_crypt.Core.Iv.{sector_size}
use nocap_crypt.Core.Primitives.{Primitives, IsLawful}
use nocap_crypt.Core.Engine.{SectorEngine}
use nocap_crypt.Core.Engine.Laws.Keyed.{IsKeyed}
use nocap_crypt.Blockio.SectorIo.{Os, IsPosix, SectorFile}
use nocap_crypt.Worker.Concurrency.{Concurrency}
use nocap_crypt.Worker.Dispatch.{SectorRange, Transfer, add_progress, prepare}
use nocap_crypt.Worker.Dispatch.Chunks.{Tiles, Tiles-le}
use nocap_crypt.Worker.Dispatch.Target.{
  target, target-IsBytes, part, prepared, unreadable, prepare-Prepared,
}
use nocap_crypt.Worker.Dispatch.Pool.{
  pending, launch, Reach, Completes, in_order, pooled, fixed_pool,
}
use nocap_crypt.Worker.Dispatch.Pool.Tasks.{CoveredBy, AllOnTarget, uncounted}
use nocap_crypt.Worker.Dispatch.Pool.Invariant.{Inv, IsCounter, add_progress-zero}
use nocap_crypt.Worker.Dispatch.Pool.Steps.{Reach-Inv}
use nocap_crypt.Worker.Dispatch.Pool.InOrder.{process_in_order-Reach}

-- Ranges that tile the sectors are on target, cover every byte, and count every byte.
Tiles-AllOnTarget :
    (T : List ℕ) (chunk : ℕ) (rs : List SectorRange) (from total : ℕ)
    → Tiles chunk rs from total
    → AllOnTarget T total (map pending rs)
Tiles-AllOnTarget T chunk [] from total h = tt
Tiles-AllOnTarget T chunk (r ∷ rs) from total h = (
  omega (arith, h.0, Tiles-le chunk rs (from + r.sector_count) total h.3),
  Tiles-AllOnTarget T chunk rs (from + r.sector_count) total h.3,
)

Tiles-CoveredBy :
    (chunk : ℕ) (rs : List SectorRange) (from total i : ℕ)
    → Tiles chunk rs from total
    → sector_size * from ≤ i
    → i < sector_size * total
    → CoveredBy (map pending rs) i
Tiles-CoveredBy chunk [] from total i h lo hi = absurd (omega arith)
Tiles-CoveredBy chunk (r ∷ rs) from total i h lo hi =
    elim (dec_lt i (512 * (from + r.sector_count))) [
      | yes here ↦ inl (omega (arith, h.0))
      | no later ↦
          inr (Tiles-CoveredBy chunk rs (from + r.sector_count) total i h.3 (omega arith) hi)
    ]

Tiles-uncounted :
    (chunk : ℕ) (rs : List SectorRange) (from total : ℕ)
    → Tiles chunk rs from total
    → sector_size * total < 2 ^ 64
    → uncounted (map pending rs) + sector_size * from ≡ sector_size * total
unfolding uncounted
Tiles-uncounted chunk [] from total h small = omega arith
Tiles-uncounted chunk (r ∷ rs) from total h small = omega (
  arith,
  h.0,
  Tiles-le chunk rs (from + r.sector_count) total h.3,
  Tiles-uncounted chunk rs (from + r.sector_count) total h.3 small,
)

-- When no task is left, the output is known everywhere.
finished_file :
    (T : List ℕ) (total work : ℕ) (start t : Transfer)
    → Inv T total start work (record { transfer = t; tasks = [] })
    → t.output.file ≡ T ++ drop (length T) start.output.file
finished_file T total work start t inv =
    get_elem?_ext t.output.file (T ++ drop (length T) start.output.file) λ i.
      elim (dec_lt i (length T)) [
        | yes in_target ↦ elim (inv.inside i in_target) [
          | inl done ↦ ground (arith, get_elem?-append T (drop (length T) start.output.file) i)
          | inr none_left ↦ absurd none_left
        ]
        | no behind ↦
            let index : length T + (i - length T) ≡ i = omega arith in
            ground (
              arith,
              get_elem?-append T (drop (length T) start.output.file) i,
              get_elem?-drop (length T) start.output.file (i - length T),
              ap (get_elem? start.output.file) index,
              inv.outside i (omega arith),
            )
      ]

module _ (p : Primitives) (lawful : IsLawful p) (engine : SectorEngine) (keyed : IsKeyed engine)
    (os : Os) (posix : IsPosix os) (encrypt : Bool) (data_len total : ℕ) (input : SectorFile)
    (bytes : IsBytes input.file) (long : data_len ≤ length input.file)
    (small : sector_size * total < 2 ^ 64) where
  -- A job that prepares its buffer prepares its part of the target.
  pub parts :
      (range : SectorRange) (buf : List ℕ)
      → range.first_sector + range.sector_count ≤ total
      → prepare os p engine data_len encrypt input range ≡ ok buf
      → buf ≡ part p lawful engine keyed encrypt data_len total input.file range
  parts range buf h e =
      elim (prepare-Prepared p lawful engine keyed os posix encrypt data_len total input bytes long
        small range h) [
          | prepared e' ↦ ok_injective (sym e ∙ e')
          | unreadable n e' f ↦ absurd (not_ok (sym e' ∙ e))
        ]

module _ (p : Primitives) (lawful : IsLawful p) (engine : SectorEngine) (keyed : IsKeyed engine)
    (os : Os) (posix : IsPosix os) (encrypt : Bool) (data_len total chunk : ℕ) (input : SectorFile)
    (start : Transfer) (ranges : List SectorRange) where
  pub launch-Inv :
      IsBytes input.file
      → sector_size * total < 2 ^ 64
      → Tiles chunk ranges 0 total
      → IsCounter start.progress
      → Inv
          (target p lawful engine keyed encrypt data_len total input.file)
          total
          start
          (sector_size * total)
          (launch start ranges)
  launch-Inv bytes small tiles counter =
      let T = target p lawful engine keyed encrypt data_len total input.file in
      let size = (target-IsBytes p lawful engine keyed encrypt data_len total input.file bytes).0 in
      let work : uncounted (map pending ranges) ≡ 512 * total =
        omega (arith, Tiles-uncounted chunk ranges 0 total tiles small) in
      record {
        on_target = Tiles-AllOnTarget T chunk ranges 0 total tiles;
        inside = λ i lt.
            inr (Tiles-CoveredBy chunk ranges 0 total i tiles (omega arith) (omega (arith, size)));
        outside = λ i ge. refl;
        same_handle = refl;
        counter = counter;
        count = ap (add_progress start.progress) work;
      }

  -- For a keyed engine, lawful primitives and a POSIX system, and ranges that tile sectors of less
  -- than 2 ^ 64 bytes: however the ranges are scheduled, if the transfer completes then the output
  -- starts with the target, is unchanged behind it, and the counter has gone up by the number of
  -- bytes written.
  pub process_ranges_lem :
      {mode : Concurrency} {t : Transfer}
      → IsBytes input.file
      → data_len ≤ length input.file
      → sector_size * total < 2 ^ 64
      → Tiles chunk ranges 0 total
      → IsCounter start.progress
      → Completes os p engine data_len encrypt input start ranges mode t
      → (t.output.file
          ≡ target p lawful engine keyed encrypt data_len total input.file
            ++ drop (sector_size * total) start.output.file)
        × (t.progress ≡ add_progress start.progress (sector_size * total))
  process_ranges_lem {mode} {t} bytes long small tiles counter done =
      let T = target p lawful engine keyed encrypt data_len total input.file in
      let size = (target-IsBytes p lawful engine keyed encrypt data_len total input.file bytes).0 in
      let inv =
        Reach-Inv os posix p engine data_len encrypt input T total start (512 * total) size small
          (parts p lawful engine keyed os posix encrypt data_len total input bytes long small)
          (launch-Inv bytes small tiles counter) run in
      (
        finished_file T total (512 * total) start t inv
            ∙ ap (λ n. T ++ drop n start.output.file) size,
        sym (add_progress-zero t.progress inv.counter) ∙ unfold uncounted in inv.count,
      )
    where
      run :
          Reach os p engine data_len encrypt input
            (launch start ranges)
            (record { transfer = t; tasks = [] })
      run = elim done [
        | in_order m e ↦
            process_in_order-Reach os posix p engine data_len encrypt input ranges start e
        | pooled m r ↦ r
        | fixed_pool n m r ↦ r
      ]
