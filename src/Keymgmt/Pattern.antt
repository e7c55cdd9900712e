-- ===== src/Keymgmt/Pattern.antt =====
-- crates/nocap-crypt-keymgmt/src/validate.rs, `detect_repeating_pattern`: keys that repeat a short
-- pattern.
pub mod Search
use native.Mathlib.Decide.{dec_lt}
use native.Mathlib.Nat.{suc-mul, div-add-mod', mul-mod_left}
use nocap_crypt.Base.{
  ℕ, zero, suc, ◌+◌, ◌-◌, ◌*◌, ◌/◌, ◌%◌, ◌≤◌, ◌<◌, ◌≡◌, refl, sym, ap, ap₂, ◌∙◌, ◌↔◌, inl, inr,
  Bool, true, false, ◌&&◌, Option, none, some, some_injective, List, [], ◌∷◌, ◌++◌, length, take,
  drop, length-take, length-drop, length-append, take-append-drop, take-append_self,
  drop-append_self, ◌==◌, if◌then◌else◌, Bool-cases, arith,
}
use nocap_crypt.Base.Bytes.{bytes_eq, bytes_eq_iff}

-- `key.chunks(period).all(|c| c == first)`, with a round for each chunk at most.
unfoldable pub all_chunks : ℕ → ℕ → List ℕ → List ℕ → Bool
all_chunks zero period first key = true
all_chunks (suc rounds) period first [] = true
all_chunks (suc rounds) period first (b ∷ bs) =
    bytes_eq (take period (b ∷ bs)) first && all_chunks rounds period first (drop period (b ∷ bs))

-- The test of `find`: the period divides the length, and every chunk is the first.
unfoldable pub repeats : List ℕ → ℕ → Bool
repeats key period =
    length key % period == 0 && all_chunks (length key) period (take period key) key

-- `find` on the periods from `period` on, of which there are `fuel`.
unfoldable pub find_period : List ℕ → ℕ → ℕ → Option ℕ
find_period key zero period = none
find_period key (suc fuel) period =
    let rest = find_period key fuel (period + 1) in if repeats key period then some period else rest

-- `detect_repeating_pattern`
unfoldable pub detect_repeating_pattern : List ℕ → Option ℕ
detect_repeating_pattern key = find_period key (length key - 1) 1

-- `n` copies of a pattern.
unfoldable pub copies : ℕ → List ℕ → List ℕ
copies zero pattern = []
copies (suc n) pattern = pattern ++ copies n pattern

-- The key is some copies, at least two, of its first `period` bytes.
abbrev pub IsPeriod : List ℕ → ℕ → Type 0
IsPeriod key period =
    (0 < period) × (period < length key) × ((n : ℕ) × (key ≡ copies n (take period key)))
