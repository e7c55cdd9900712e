-- ===== src/Entropy/Scores.antt =====
-- crates/nocap-crypt-entropy/src/shannon.rs and chisquare.rs: scores of a buffer from its histogram.
use nocap_crypt.Base.{
  ℕ, zero, suc, ◌+◌, ◌≡◌, refl, min, Bool, List, [], ◌∷◌, ◌++◌, map, length, replicate, ltb, ◌==◌,
  if◌then◌else◌,
}
use nocap_crypt.Entropy.Floats.{Floats, sum_from}

-- `counts[b as usize] += 1`
unfoldable pub bump : List ℕ → ℕ → List ℕ
bump [] b = []
bump (c ∷ cs) zero = (c + 1) ∷ cs
bump (c ∷ cs) (suc b) = c ∷ bump cs b

-- The loop over the bytes.
unfoldable pub tally : List ℕ → List ℕ → List ℕ
tally counts [] = counts
tally counts (b ∷ bs) = tally (bump counts b) bs

-- `[0u64; 256]`
abbrev pub no_counts : List ℕ
no_counts = replicate 256 0

-- `filter(|c| c > 0)`
unfoldable pub present : List ℕ → List ℕ
present [] = []
present (c ∷ cs) = let rest = present cs in if ltb 0 c then c ∷ rest else rest

module _ (fl : Floats) where
  -- The sum over a histogram of `len` bytes.
  unfoldable pub entropy_sum : List ℕ → ℕ → fl.F
  entropy_sum counts len = sum_from fl fl.sum_start (
      map (λ (c : ℕ). let p = fl.div (fl.of_nat c) (fl.of_nat len) in fl.mul (fl.neg p) (fl.log2 p))
        (present counts))

  -- `shannon_entropy`
  unfoldable pub shannon_entropy : List ℕ → fl.F
  shannon_entropy bytes =
      if length bytes == 0 then fl.of_nat 0 else entropy_sum (tally no_counts bytes) (length bytes)

  -- `shannon_entropy_ceiling`
  unfoldable pub shannon_entropy_ceiling : ℕ → fl.F
  shannon_entropy_ceiling len = if len == 0 then fl.of_nat 0 else fl.log2 (fl.of_nat (min len 256))

  -- `chi_square_statistic`
  unfoldable pub chi_square_statistic : List ℕ → fl.F
  chi_square_statistic bytes =
      if length bytes == 0
      then fl.of_nat 0
      else (let expected = fl.div (fl.of_nat (length bytes)) (fl.of_nat 256) in
          sum_from fl fl.sum_start (
            map
              (λ (c : ℕ).
                let diff = fl.sub (fl.of_nat c) expected in fl.div (fl.mul diff diff) expected)
              (tally no_counts bytes)))

  -- `chi_square_critical_approx`
  unfoldable pub chi_square_critical_approx : fl.F → fl.F → fl.F
  chi_square_critical_approx df z =
      let ratio = fl.div (fl.of_nat 2) (fl.mul (fl.of_nat 9) df) in
      let term = fl.add (fl.sub (fl.of_nat 1) ratio) (fl.mul z (fl.sqrt ratio)) in
      fl.mul (fl.mul (fl.mul df term) term) term

  -- `is_uniform`
  unfoldable pub is_uniform : List ℕ → fl.F → Bool
  is_uniform bytes z =
      fl.le (chi_square_statistic bytes) (chi_square_critical_approx (fl.of_nat 255) z)

-- A histogram is taken piece by piece.
pub tally-append : (counts xs ys : List ℕ) → tally counts (xs ++ ys) ≡ tally (tally counts xs) ys
unfolding tally
tally-append counts [] ys = refl
tally-append counts (x ∷ xs) ys = tally-append (bump counts x) xs ys
