-- ===== src/Keymgmt/Pattern/Search.antt =====
-- What the search for a repeating pattern finds.
use native.Mathlib.Decide.{dec_lt}
use native.Mathlib.Nat.{suc-mul, div-add-mod', mul-mod_left}
use nocap_crypt.Base.{
  ℕ, zero, suc, ◌+◌, ◌-◌, ◌*◌, ◌/◌, ◌%◌, ◌≤◌, ◌<◌, ◌≡◌, refl, sym, ap, ap₂, ◌∙◌, ◌↔◌, inl, inr,
  true, false, ◌&&◌, none, some, some_injective, List, [], ◌∷◌, ◌++◌, length, take, drop,
  length-take, length-drop, length-append, take-append-drop, take-append_self, drop-append_self,
  ◌==◌, Bool-cases, arith,
}
use nocap_crypt.Base.Bytes.{bytes_eq, bytes_eq_iff}
use nocap_crypt.Keymgmt.Pattern.{
  all_chunks, repeats, find_period, detect_repeating_pattern, copies, IsPeriod,
}

-- The chunks are all `first` exactly if the key is copies of it.
all_chunks_iff :
    (n rounds period : ℕ) (first key : List ℕ)
    → 0 < period
    → length first ≡ period
    → length key ≡ n * period
    → length key ≤ rounds
    → (all_chunks rounds period first key ≡ true) ↔ (key ≡ copies n first)
unfolding all_chunks copies
all_chunks_iff zero zero period first [] pos size whole fuel = (λ h. refl, λ h. refl)
all_chunks_iff zero (suc r) period first [] pos size whole fuel = (λ h. refl, λ h. refl)
all_chunks_iff zero rounds period first (b ∷ bs) pos size whole fuel = absurd (omega arith)
all_chunks_iff (suc n) rounds period first [] pos size whole fuel =
    absurd (omega (arith, suc-mul n period))
all_chunks_iff (suc n) zero period first (b ∷ bs) pos size whole fuel = absurd (omega arith)
all_chunks_iff (suc n) (suc r) period first (b ∷ bs) pos size whole fuel =
    let key : List ℕ = b ∷ bs in
    let rest =
      all_chunks_iff n r period first (drop period key) pos size
        (omega (arith, length-drop period key, suc-mul n period))
        (omega (arith, length-drop period key)) in
    (
      λ h.
          let both : (bytes_eq (take period key) first ≡ true)
              × (all_chunks r period first (drop period key) ≡ true) =
            ground arith in
          sym (take-append-drop period key)
          ∙ ap₂ ◌++◌ ((bytes_eq_iff (take period key) first).0 both.0) (rest.0 both.1),
      λ e.
          let front : bytes_eq (take period key) first ≡ true =
            (bytes_eq_iff (take period key) first).1
              (ap (take period) e ∙ take-append_self period first (copies n first) size) in
          let back : all_chunks r period first (drop period key) ≡ true =
            rest.1 (ap (drop period) e ∙ drop-append_self period first (copies n first) size) in
          ground (arith, front, back),
    )

length-copies : (n : ℕ) (pattern : List ℕ) → length (copies n pattern) ≡ n * length pattern
unfolding copies
length-copies zero pattern = omega arith
length-copies (suc n) pattern = omega (
  arith,
  length-append pattern (copies n pattern),
  length-copies n pattern,
  suc-mul n (length pattern),
)

repeats_iff :
    (key : List ℕ) (period : ℕ)
    → 0 < period
    → period < length key
    → (repeats key period ≡ true) ↔ IsPeriod key period
unfolding repeats
repeats_iff key period pos short = (λ h. to (ground arith) (ground arith), λ h. from h.2.0 h.2.1)
  where
    size : length (take period key) ≡ period
    size = omega (arith, length-take period key)

    to :
        length key % period ≡ 0
        → all_chunks (length key) period (take period key) key ≡ true
        → IsPeriod key period
    to whole same =
        let n = length key / period in
        let count : length key ≡ n * period = omega (arith, div-add-mod' (length key) period) in
        (
          pos,
          short,
          (
            n,
            (all_chunks_iff n (length key) period (take period key) key pos size count
                  (omega arith)).0
                same,
          ),
        )

    from :
        (n : ℕ)
        → key ≡ copies n (take period key)
        → (length key % period == 0 && all_chunks (length key) period (take period key) key) ≡ true
    from n e =
        let count : length key ≡ n * period =
          ap length e ∙ length-copies n (take period key) ∙ ap (λ k. n * k) size in
        let whole : length key % period ≡ 0 = ap (λ k. k % period) count ∙ mul-mod_left n period in
        let same =
          (all_chunks_iff n (length key) period (take period key) key pos size count
              (omega arith)).1
            e in
        ground (arith, whole, same)

-- The first period from `start` on that passes the test.
abbrev IsFirst : List ℕ → ℕ → ℕ → ℕ → Type 0
IsFirst key fuel start period =
    (start ≤ period)
    × (period < start + fuel)
    × (repeats key period ≡ true)
    × ((other : ℕ) → start ≤ other → repeats key other ≡ true → period ≤ other)

find_period-IsFirst :
    (key : List ℕ) (fuel start period : ℕ)
    → (find_period key fuel start ≡ some period) ↔ IsFirst key fuel start period
unfolding find_period
find_period-IsFirst key zero start period =
    (λ h. absurd (cc h), λ h. absurd (omega (arith, h.0, h.1)))
find_period-IsFirst key (suc fuel) start period =
    let rest = find_period-IsFirst key fuel (start + 1) period in
    elim (Bool-cases (repeats key start)) [
      | inl here ↦ rw here (
        λ h.
            let same : start ≡ period = some_injective h in
            (
              omega (arith, same),
              omega (arith, same),
              ap (repeats key) (sym same) ∙ here,
              λ other h k. omega (arith, same),
            ),
        λ h. ap some (omega (arith, h.0, h.3 start (omega arith) here)),
      )
      | inr later ↦ rw later (
        λ h.
            let first = rest.0 h in
            (
              omega (arith, first.0),
              omega (arith, first.1),
              first.2,
              λ other h k. elim (dec_lt start other) [
                | yes past ↦ first.3 other (omega arith) k
                | no same ↦ absurd (at_start later (omega arith) k)
              ],
            ),
        λ h. elim (dec_lt start period) [
          | yes past ↦
              rest.1 (
                omega (arith, h.0),
                omega (arith, h.1),
                h.2,
                λ other h' k. h.3 other (omega arith) k,
              )
          | no same ↦ absurd (at_start later (omega (arith, h.0)) h.2)
        ],
      )
    ]
  where
    at_start :
        repeats key start ≡ false → {other : ℕ} → start ≡ other → repeats key other ≡ true → ⊥
    at_start later same k = cc (later, ap (repeats key) same, k)

-- `detect_repeating_pattern` finds the shortest pattern that the key repeats, if there is one.
pub detect_repeating_pattern_lem :
    (key : List ℕ) (period : ℕ)
    → (detect_repeating_pattern key ≡ some period)
      ↔ (IsPeriod key period × ((other : ℕ) → IsPeriod key other → period ≤ other))
unfolding detect_repeating_pattern
detect_repeating_pattern_lem key period =
    let first = find_period-IsFirst key (length key - 1) 1 period in
    (λ h. to (first.0 h), λ h. first.1 (from h.0 h.1))
  where
    to :
        IsFirst key (length key - 1) 1 period
        → IsPeriod key period × ((other : ℕ) → IsPeriod key other → period ≤ other)
    to f = (
      (repeats_iff key period (omega (arith, f.0)) (omega (arith, f.0, f.1))).0 f.2,
      λ other h. f.3 other (omega (arith, h.0)) ((repeats_iff key other h.0 h.1).1 h),
    )

    from :
        IsPeriod key period
        → ((other : ℕ) → IsPeriod key other → period ≤ other)
        → IsFirst key (length key - 1) 1 period
    from h least = (
      omega (arith, h.0),
      omega (arith, h.0, h.1),
      (repeats_iff key period h.0 h.1).1 h,
      λ other k r. elim (dec_lt other (length key)) [
        | yes inside ↦ least other ((repeats_iff key other (omega arith) inside).0 r)
        | no beyond ↦ omega (arith, h.1)
      ],
    )

find_period-none :
    (key : List ℕ) (fuel start other : ℕ)
    → find_period key fuel start ≡ none
    → start ≤ other
    → other < start + fuel
    → repeats key other ≡ true
    → ⊥
unfolding find_period
find_period-none key zero start other e h k r = omega arith
find_period-none key (suc fuel) start other e h k r = elim (Bool-cases (repeats key start)) [
  | inl here ↦ cc (rw (find_period, here) at e)
  | inr later ↦ elim (dec_lt start other) [
    | yes past ↦
        find_period-none key fuel (start + 1) other (rw (find_period, later) at e) (omega arith)
          (omega arith) r
    | no same ↦ at_start later (omega arith)
  ]
]
  where
    at_start : repeats key start ≡ false → start ≡ other → ⊥
    at_start later same = cc (later, ap (repeats key) same, r)

-- If it finds none, the key repeats none.
pub detect_repeating_pattern-none :
    (key : List ℕ) (period : ℕ) → detect_repeating_pattern key ≡ none → ¬ IsPeriod key period
unfolding detect_repeating_pattern
detect_repeating_pattern-none key period e h =
    find_period-none key (length key - 1) 1 period e (omega (arith, h.0)) (omega (arith, h.0, h.1))
      ((repeats_iff key period h.0 h.1).1 h)
