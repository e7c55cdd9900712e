-- ===== src/Worker/Cgroup/Cores.antt =====
-- There is a core, whatever the quota.
use nocap_crypt.Base.{
  ℕ, ◌≤◌, ◌≡◌, subst, inl, inr, ◌||◌, Option, none, some, some_injective, List, [], ◌∷◌, Bool-cases,
  Option-cases, arith,
}
use nocap_crypt.Base.Bytes.{bytes_eq}
use nocap_crypt.Base.Text.{codes}
use nocap_crypt.Base.Words.{split_whitespace}
use nocap_crypt.Base.Decimal.{parse_i64}
use nocap_crypt.Worker.DiskInfo.{◌>>?◌}
use nocap_crypt.Worker.Cgroup.{
  QuotaFloats, Cpus, is_not_positive, to_option, quota_cores, parse_v2_words, v2_words,
  parse_cgroup_v2_max, parse_cgroup_v1, cgroup_v1_cores, effective_quota_cores,
  effective_core_count,
}

-- `f64::max` gives 1.0 where its receiver is less or not a number, and the cast rounds down.
pub record IsRounding (fl : QuotaFloats) : Type 0 where
  pub to_usize-max_one : (x : fl.F) → 1 ≤ fl.to_usize (fl.max_one x)

-- What there is of a number is positive.
abbrev IsPositive : Option ℕ → Type 0
IsPositive o = (n : ℕ) → o ≡ some n → 1 ≤ n

none-IsPositive : IsPositive none
none-IsPositive n e = cc

some-IsPositive : (m : ℕ) → 1 ≤ m → IsPositive (some m)
some-IsPositive m h n e = subst (λ k. 1 ≤ k) (some_injective e) h

bind-IsPositive :
    {A : Type 0} (o : Option A) (f : A → Option ℕ)
    → ((a : A) → IsPositive (f a))
    → IsPositive (o >>? f)
bind-IsPositive none f h = none-IsPositive
bind-IsPositive (some a) f h = h a

module _ (fl : QuotaFloats) (rounding : IsRounding fl) where
  quota_cores-IsPositive : (quota period : fl.F) → IsPositive (some (quota_cores fl quota period))
  unfolding quota_cores
  quota_cores-IsPositive quota period = some-IsPositive _ (rounding.to_usize-max_one _)

  parse_v2_words-IsPositive : (quota period : List ℕ) → IsPositive (parse_v2_words fl quota period)
  unfolding parse_v2_words
  parse_v2_words-IsPositive quota_str period_str =
      bind-IsPositive (fl.parse period_str) _ (λ period.
        elim (Bool-cases (bytes_eq quota_str (codes "max") || fl.le_zero period)) [
          | inl unlimited ↦ rw unlimited none-IsPositive
          | inr limited ↦ rw limited (
              bind-IsPositive (fl.parse quota_str) _ (λ quota.
                elim (Bool-cases (fl.le_zero quota)) [
                  | inl nothing ↦ rw nothing none-IsPositive
                  | inr something ↦ rw something (quota_cores-IsPositive quota period)
                ]))
        ])

  v2_words-IsPositive : (words : List (List ℕ)) → IsPositive (v2_words fl words)
  v2_words-IsPositive [] = none-IsPositive
  v2_words-IsPositive (quota_str ∷ []) = none-IsPositive
  v2_words-IsPositive (quota_str ∷ (period_str ∷ rest)) =
      parse_v2_words-IsPositive quota_str period_str

  parse_cgroup_v1-IsPositive :
      (quota period : List ℕ) → IsPositive (parse_cgroup_v1 fl quota period)
  unfolding parse_cgroup_v1
  parse_cgroup_v1-IsPositive quota_str period_str =
      bind-IsPositive (to_option (parse_i64 quota_str)) _ (λ quota.
        bind-IsPositive (to_option (parse_i64 period_str)) _ (λ period.
          elim (Bool-cases (is_not_positive quota || is_not_positive period)) [
            | inl unlimited ↦ rw unlimited none-IsPositive
            | inr limited ↦ rw limited (quota_cores-IsPositive _ _)
          ]))

  module _ (sys : Cpus) where
    effective_quota_cores-IsPositive : IsPositive (effective_quota_cores fl sys)
    unfolding effective_quota_cores cgroup_v1_cores parse_cgroup_v2_max
    effective_quota_cores-IsPositive =
        elim (Option-cases (sys.cpu_max >>? parse_cgroup_v2_max fl)) [
          | inl unset ↦
              rw (effective_quota_cores, unset)
                (bind-IsPositive sys.cfs_quota_us _ (λ quota.
                  bind-IsPositive sys.cfs_period_us _ (λ period. parse_cgroup_v1-IsPositive _ _)))
          | inr (cores, e) ↦
              rw (effective_quota_cores, e)
                (some-IsPositive cores (
                  bind-IsPositive sys.cpu_max (parse_cgroup_v2_max fl)
                    (λ content. v2_words-IsPositive (split_whitespace content)) cores e))
        ]

    -- Where the system's own count, if it gives one, is not 0, the count of cores is at least 1, whatever
    -- the texts of the quotas say.
    pub effective_core_count_positive :
        ((n : ℕ) → sys.available_parallelism ≡ some n → 1 ≤ n) → 1 ≤ effective_core_count fl sys
    unfolding effective_core_count
    effective_core_count_positive own = elim (Option-cases (effective_quota_cores fl sys)) [
      | inl unset ↦
          rw (effective_core_count, unset)
            (elim (Option-cases sys.available_parallelism) [
              | inl unknown ↦ rw unknown (omega arith)
              | inr (n, e) ↦ rw e (own n e)
            ])
      | inr (cores, e) ↦ rw (effective_core_count, e) (effective_quota_cores-IsPositive cores e)
    ]
