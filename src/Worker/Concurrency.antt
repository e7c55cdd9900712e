-- ===== src/Worker/Concurrency.antt =====
-- crates/nocap-crypt-worker/src/concurrency.rs: which concurrency mode applies.
use nocap_crypt.Base.{
  ℕ, ◌*◌, ◌≤◌, ◌≡◌, max, Bool, false, ◌||◌, Option, none, some, ltb, if◌then◌else◌, arith,
}

pub data Concurrency : Type 0 where
  synchronous global_pool : Concurrency
  fixed : ℕ → Concurrency

abbrev pub default_small_file_threshold_bytes : ℕ
default_small_file_threshold_bytes = 256 * 1024 * 1024

-- `resolve`; the path is not consulted.
unfoldable pub resolve : ℕ → ℕ → Bool → Option ℕ → Concurrency
resolve file_size small_file_threshold pin_to_submission_thread max_workers_override =
    if pin_to_submission_thread || ltb file_size small_file_threshold
    then synchronous
    else elim max_workers_override [ some n ↦ fixed (max n 1) | none ↦ global_pool ]

-- A pool of zero threads is never asked for, and a pool only for a file at the threshold or above
-- that is not pinned.
pub resolve-fixed :
    (size threshold : ℕ) (pin : Bool) (workers : Option ℕ) {n : ℕ}
    → resolve size threshold pin workers ≡ fixed n
    → (1 ≤ n) × (threshold ≤ size) × (pin ≡ false)
unfolding resolve
resolve-fixed size threshold pin workers h = ground arith
