-- ===== src/Worker/Dispatch/Pool.antt =====
-- crates/nocap-crypt-worker/src/dispatch.rs, `process_ranges`: the jobs of a rayon pool as tasks that
-- take turns. A step of a task is its read and cipher, one write that the system may cut short, or
-- the count of its bytes; rayon may take the tasks in any order and with any interleaving. Other
-- threads only poll the counter. The input is not written to.
pub mod Tasks
pub mod Invariant
pub mod Written
pub mod Steps
pub mod Outcome
pub mod InOrder
pub mod Progress
pub mod Termination
use nocap_crypt.Base.{
  ℕ, ◌+◌, ◌%◌, ◌^◌, ◌≤◌, ◌<◌, ◌≡◌, max, Bool, Option, none, some, List, [], ◌∷◌, ◌++◌, length, take,
  drop, map,
}
use nocap_crypt.Base.Result.{Result, ok, err, Fault, failed}
use nocap_crypt.Core.Primitives.{Primitives}
use nocap_crypt.Core.Engine.{SectorEngine}
use nocap_crypt.Blockio.SectorIo.{IoError, os_error, Os, SectorFile, splice, write_at}
use nocap_crypt.Worker.Concurrency.{Concurrency, synchronous, global_pool, fixed}
use nocap_crypt.Worker.Dispatch.{
  SectorRange, Transfer, byte_offset, byte_len, add_progress, prepare, process_in_order,
}

-- A job that has not begun, or one that has still to write some bytes at an offset.
pub data Task : Type 0 where
  pending : SectorRange → Task
  writing : SectorRange → ℕ → List ℕ → Task

pub record Pool : Type 0 where
  pub transfer : Transfer
  pub tasks : List Task

-- All the jobs are given to the pool.
abbrev pub launch : Transfer → List SectorRange → Pool
launch t ranges = record { transfer = t; tasks = map pending ranges }

-- What is written when a call took `n` bytes of `buf`.
abbrev pub wrote : Transfer → ℕ → List ℕ → ℕ → Transfer
wrote t off buf n = record t {
  output = record t.output { file = splice t.output.file off (take n buf) };
}

abbrev pub counted : Transfer → SectorRange → Transfer
counted t range = record t { progress = add_progress t.progress (byte_len range) }

module _ (os : Os) (p : Primitives) (engine : SectorEngine) (data_len : ℕ) (encrypt : Bool)
    (input : SectorFile) where
  -- Some task, wherever it stands in the pool, makes a step.
  pub data Step : Pool → Pool → Type 0 where
    begin :
        {s : Pool} (before after : List Task) (range : SectorRange) (buf : List ℕ)
        → s.tasks ≡ before ++ (pending range ∷ after)
        → prepare os p engine data_len encrypt input range ≡ ok buf
        → Step s (record s { tasks = before ++ (writing range (byte_offset range) buf ∷ after) })
    write :
        {s : Pool} (before after : List Task) (range : SectorRange) (off : ℕ) (buf : List ℕ) (n : ℕ)
        → s.tasks ≡ before ++ (writing range off buf ∷ after)
        → 0 < length buf
        → write_at os s.transfer.output off buf ≡ ok n
        → 0 < n
        → Step s (record {
          transfer = wrote s.transfer off buf n;
          tasks = before ++ (writing range ((off + n) % 2 ^ 64) (drop n buf) ∷ after);
        })
    finish :
        {s : Pool} (before after : List Task) (range : SectorRange) (off : ℕ)
        → s.tasks ≡ before ++ (writing range off [] ∷ after)
        → Step s (record { transfer = counted s.transfer range; tasks = before ++ after })

  pub data Reach (s : Pool) : Pool → Type 0 where
    here : Reach s s
    next : {t u : Pool} → Reach s t → Step t u → Reach s u

  -- `process_ranges` may return `Ok` with this output and counter. In the pooled modes that is when
  -- every job has come to its end. `Fixed` builds a pool first, of one thread at least.
  pub data Completes (t : Transfer) (ranges : List SectorRange)
      : Concurrency → Transfer → Type 0 where
    in_order :
        {mode : Concurrency} {t' : Transfer}
        → mode ≡ synchronous
        → process_in_order os p engine data_len encrypt input ranges t ≡ ok t'
        → Completes t ranges mode t'
    pooled :
        {mode : Concurrency} {t' : Transfer}
        → mode ≡ global_pool
        → Reach (launch t ranges) (record { transfer = t'; tasks = [] })
        → Completes t ranges mode t'
    fixed_pool :
        {mode : Concurrency} {t' : Transfer} (num_threads : ℕ)
        → mode ≡ fixed num_threads
        → Reach (launch t ranges) (record { transfer = t'; tasks = [] })
        → Completes t ranges mode t'
