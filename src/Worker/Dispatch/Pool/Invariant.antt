-- ===== src/Worker/Dispatch/Pool/Invariant.antt =====
-- What holds at every moment of a transfer, however its jobs are interleaved.
use nocap_crypt.Base.{
  ℕ, ◌+◌, ◌^◌, ◌≤◌, ◌<◌, ◌≡◌, refl, ap, ◌⊎◌, Option, none, some, List, length, get_elem?, arith,
}
use nocap_crypt.Worker.Dispatch.{Transfer, add_progress}
use nocap_crypt.Worker.Dispatch.Pool.{Pool}
use nocap_crypt.Worker.Dispatch.Pool.Tasks.{CoveredBy, AllOnTarget, uncounted}

-- Counting two amounts one after the other is counting their sum.
pub add_progress_twice :
    (progress : Option ℕ) (a b : ℕ)
    → add_progress (add_progress progress a) b ≡ add_progress progress (a + b)
add_progress_twice none a b = refl
add_progress_twice (some c) a b = ap some (omega arith)

-- The counter is an `AtomicU64`.
abbrev pub IsCounter : Option ℕ → Type 0
IsCounter none = Unit {0}
IsCounter (some c) = c < 2 ^ 64

pub add_progress-IsCounter :
    (progress : Option ℕ) (n : ℕ) → IsCounter progress → IsCounter (add_progress progress n)
add_progress-IsCounter none n h = tt
add_progress-IsCounter (some c) n h = omega arith

pub add_progress-zero :
    (progress : Option ℕ) → IsCounter progress → add_progress progress 0 ≡ progress
add_progress-zero none h = refl
add_progress-zero (some c) h = ap some (omega arith)

-- `T` is what is to be written, at the start of the output; `start` is the transfer at the launch.
pub record Inv (T : List ℕ) (total : ℕ) (start : Transfer) (work : ℕ) (s : Pool) : Type 0 where
  pub on_target : AllOnTarget T total s.tasks
  -- A byte of the output is the target's, or some task is still to write it.
  pub inside :
      (i : ℕ)
      → i < length T
      → (get_elem? s.transfer.output.file i ≡ get_elem? T i) ⊎ CoveredBy s.tasks i
  pub outside :
      (i : ℕ) → length T ≤ i → get_elem? s.transfer.output.file i ≡ get_elem? start.output.file i
  pub same_handle : s.transfer.output.direct_io_active ≡ start.output.direct_io_active
  pub counter : IsCounter s.transfer.progress
  pub count :
      add_progress s.transfer.progress (uncounted s.tasks) ≡ add_progress start.progress work
