-- ===== src/Worker/Cgroup/Tests.antt =====
-- Quotas at work, with whole numbers for figures.
use nocap_crypt.Base.{
  ℕ, zero, suc, ◌+◌, ◌-◌, ◌/◌, ◌≤◌, ◌≡◌, refl, max, Bool, true, false, Option, none, some,
  some_injective, List, subst, arith,
}
use nocap_crypt.Base.Result.{ok, err}
use nocap_crypt.Base.Text.{codes}
use nocap_crypt.Base.Words.{split_whitespace}
use nocap_crypt.Base.Decimal.{ℤ, pos, negsuc, parse_i64, parse_digits, add_digit}
use nocap_crypt.Worker.Cgroup.{
  QuotaFloats, Cpus, quota_cores, parse_v2_words, parse_cgroup_v2_max, parse_cgroup_v1,
  effective_quota_cores, effective_core_count,
}
use nocap_crypt.Worker.Cgroup.Cores.{IsRounding, effective_core_count_positive}

abbrev whole : ℤ → ℕ
whole (pos n) = n
whole (negsuc n) = 0

abbrev number : List ℕ → Option ℕ
number text = elim (parse_i64 text) [ ok (pos n) ↦ some n | ok (negsuc n) ↦ none | err e ↦ none ]

abbrev is_zero : ℕ → Bool
is_zero zero = true
is_zero (suc n) = false

abbrev figures : QuotaFloats
figures = record {
  F = ℕ;
  parse = number;
  of_int = whole;
  le_zero = is_zero;
  div = λ a b. (a + (b - 1)) / b;
  ceil = λ a. a;
  max_one = λ a. max a 1;
  to_usize = λ a. a;
}

figures-IsRounding : IsRounding figures
figures-IsRounding = record { to_usize-max_one = λ x. omega arith }

-- Two cores and a half, on a machine of eight.
abbrev container : Cpus
container = record {
  cpu_max = some (codes "250000 100000\n");
  cfs_quota_us = none;
  cfs_period_us = none;
  available_parallelism = some 8;
}

three_cores : effective_core_count figures container ≡ 3
unfolding effective_core_count effective_quota_cores parse_cgroup_v2_max split_whitespace
    parse_v2_words quota_cores parse_i64 parse_digits add_digit
three_cores = refl

-- A quota of -1 is none.
unlimited : parse_cgroup_v1 figures (codes "-1") (codes "100000") ≡ none
unfolding parse_cgroup_v1 parse_i64 parse_digits add_digit
unlimited = refl

effective_core_count_positive_example : 1 ≤ effective_core_count figures container
effective_core_count_positive_example =
    effective_core_count_positive figures figures-IsRounding container
      (λ n e. subst (λ k. 1 ≤ k) (some_injective e) (omega arith))
