-- ===== src/Worker/Dispatch/Pool/Termination.antt =====
-- The transfers of ranges that tile the data end, in every mode.
use nocap_crypt.Base.{
  ℕ, ◌+◌, ◌*◌, ◌^◌, ◌≤◌, ◌<◌, ◌≡◌, ◌≢◌, refl, Bool, List, [], ◌∷◌, length, arith,
}
use nocap_crypt.Base.Bytes.{IsBytes}
use nocap_crypt.Core.Iv.{sector_size}
use nocap_crypt.Core.Primitives.{Primitives, IsLawful}
use nocap_crypt.Core.Engine.{SectorEngine}
use nocap_crypt.Core.Engine.Laws.Keyed.{IsKeyed}
use nocap_crypt.Blockio.SectorIo.{Os, IsPosix, IsReliable, SectorFile}
use nocap_crypt.Worker.Concurrency.{synchronous}
use nocap_crypt.Worker.Dispatch.{SectorRange, Transfer}
use nocap_crypt.Worker.Dispatch.Chunks.{Tiles, Tiles-le}
use nocap_crypt.Worker.Dispatch.Target.{target, target-IsBytes}
use nocap_crypt.Worker.Dispatch.Pool.{Task, Pool, launch, Step, Reach, Completes, in_order}
use nocap_crypt.Worker.Dispatch.Pool.Tasks.{AllOnTarget}
use nocap_crypt.Worker.Dispatch.Pool.Invariant.{IsCounter}
use nocap_crypt.Worker.Dispatch.Pool.Steps.{Reach-Inv}
use nocap_crypt.Worker.Dispatch.Pool.Outcome.{launch-Inv, parts}
use nocap_crypt.Worker.Dispatch.Pool.Progress.{
  AllWithin, measure, process_in_order-ok, Step-exists, Step-measure,
}

Tiles-AllWithin :
    (chunk : ℕ) (rs : List SectorRange) (from total : ℕ)
    → Tiles chunk rs from total
    → AllWithin total rs
Tiles-AllWithin chunk [] from total h = tt
Tiles-AllWithin chunk (r ∷ rs) from total h = (
  omega (arith, h.0, Tiles-le chunk rs (from + r.sector_count) total h.3),
  Tiles-AllWithin chunk rs (from + r.sector_count) total h.3,
)

module _ (p : Primitives) (lawful : IsLawful p) (engine : SectorEngine) (keyed : IsKeyed engine)
    (os : Os) (posix : IsPosix os) (reliable : IsReliable os) (encrypt : Bool)
    (data_len total chunk : ℕ) (input : SectorFile) (start : Transfer) (ranges : List SectorRange)
    (bytes : IsBytes input.file) (long : data_len ≤ length input.file)
    (small : sector_size * total < 2 ^ 64) (tiles : Tiles chunk ranges 0 total) where
  -- With a POSIX system whose calls do not fail, and for sectors of less than 2 ^ 64 bytes,
  -- `Synchronous` dispatch of ranges that tile the data of a file returns `Ok`.
  pub synchronous-Completes :
      (t : Transfer) × Completes os p engine data_len encrypt input start ranges synchronous t
  synchronous-Completes =
      let (t, e) =
        process_in_order-ok p lawful engine keyed os posix reliable encrypt data_len total input
          bytes long small ranges start (Tiles-AllWithin chunk ranges 0 total tiles) in
      (t, in_order refl e)

  -- Some first task can go on.
  can-Step :
      (T : List ℕ) (s : Pool) (ts : List Task)
      → s.tasks ≡ ts
      → AllOnTarget T total ts
      → ts ≢ []
      → (u : Pool) × Step os p engine data_len encrypt input s u
  can-Step T s [] focus on some_left = absurd (some_left refl)
  can-Step T s (task ∷ after) focus on some_left =
      Step-exists p lawful engine keyed os posix reliable encrypt data_len total input bytes long
        small T s task after focus on.0

  -- With a POSIX system whose calls do not fail, and for sectors of less than 2 ^ 64 bytes, a pool
  -- of jobs that tile the data of a file does not get stuck before every job is done, whatever it
  -- has done so far, and it cannot go on for ever: each step makes a natural number, the measure
  -- of its tasks, smaller.
  pub pool_terminates :
      (s : Pool)
      → IsCounter start.progress
      → Reach os p engine data_len encrypt input (launch start ranges) s
      → (s.tasks ≢ [] → (u : Pool) × Step os p engine data_len encrypt input s u)
        × ((u : Pool)
            → Step os p engine data_len encrypt input s u
            → measure u.tasks < measure s.tasks)
  pool_terminates s counter r =
      let T = target p lawful engine keyed encrypt data_len total input.file in
      let size = (target-IsBytes p lawful engine keyed encrypt data_len total input.file bytes).0 in
      let inv =
        Reach-Inv os posix p engine data_len encrypt input T total start (512 * total) size small
          (parts p lawful engine keyed os posix encrypt data_len total input bytes long small)
          (launch-Inv p lawful engine keyed os posix encrypt data_len total chunk input start ranges
            bytes small tiles counter)
          r in
      (
        can-Step T s s.tasks refl inv.on_target,
        λ u st.
            Step-measure p lawful engine keyed os posix reliable encrypt data_len total input bytes
              long small T inv.on_target st,
      )
