-- ===== src/Worker/Cgroup.antt =====
-- crates/nocap-crypt-worker/src/cgroup.rs and heuristic.rs: how many cores there are under a quota. A
-- text is its code points.
pub mod Cores
mod Tests
use nocap_crypt.Base.{
  ℕ, zero, suc, ◌/◌, ◌≤◌, ◌≡◌, inl, inr, Bool, true, false, ◌||◌, Option, none, some, List, [], ◌∷◌,
  if◌then◌else◌, Bool-cases, Option-cases, arith,
}
use nocap_crypt.Base.Bytes.{bytes_eq}
use nocap_crypt.Base.Result.{Result, ok, err}
use nocap_crypt.Base.Text.{codes, trim_list}
use nocap_crypt.Base.Words.{split_whitespace}
use nocap_crypt.Base.Decimal.{ℤ, pos, negsuc, ParseIntError, parse_i64}
use nocap_crypt.Core.Iv.{sector_size}
use nocap_crypt.Worker.DiskInfo.{◌>>?◌, DiskType, disk_type_for_path}

-- The `f64` that a quota takes: `parse`, `as f64`, `<= 0.0`, `/`, `ceil`, `max(1.0)` and `as usize`.
pub record QuotaFloats : Type 1 where
  pub F : Type 0
  pub parse : List ℕ → Option F
  pub of_int : ℤ → F
  pub le_zero : F → Bool
  pub div : F → F → F
  pub ceil : F → F
  pub max_one : F → F
  pub to_usize : F → ℕ

-- What the system answers: the texts of cpu.max, cpu.cfs_quota_us and cpu.cfs_period_us, and
-- `available_parallelism`.
pub record Cpus : Type 0 where
  pub cpu_max : Option (List ℕ)
  pub cfs_quota_us : Option (List ℕ)
  pub cfs_period_us : Option (List ℕ)
  pub available_parallelism : Option ℕ

abbrev is_not_positive : ℤ → Bool
is_not_positive (pos zero) = true
is_not_positive (pos (suc n)) = false
is_not_positive (negsuc n) = true

-- `Result::ok`
abbrev to_option : Result ParseIntError ℤ → Option ℤ
to_option (ok n) = some n
to_option (err e) = none

module _ (fl : QuotaFloats) where
  -- `(quota / period).ceil().max(1.0) as usize`
  unfoldable pub quota_cores : fl.F → fl.F → ℕ
  quota_cores quota period = fl.to_usize (fl.max_one (fl.ceil (fl.div quota period)))

  -- What `parse_cgroup_v2_max` does with the first two words.
  unfoldable pub parse_v2_words : List ℕ → List ℕ → Option ℕ
  parse_v2_words quota_str period_str = fl.parse period_str >>? λ period.
      if bytes_eq quota_str (codes "max") || fl.le_zero period
      then none
      else (fl.parse quota_str >>? λ quota.
          if fl.le_zero quota then none else some (quota_cores quota period))

  abbrev v2_words : List (List ℕ) → Option ℕ
  v2_words [] = none
  v2_words (quota_str ∷ []) = none
  v2_words (quota_str ∷ (period_str ∷ rest)) = parse_v2_words quota_str period_str

  -- `parse_cgroup_v2_max`
  unfoldable pub parse_cgroup_v2_max : List ℕ → Option ℕ
  parse_cgroup_v2_max content = v2_words (split_whitespace content)

  -- `parse_cgroup_v1`
  unfoldable pub parse_cgroup_v1 : List ℕ → List ℕ → Option ℕ
  parse_cgroup_v1 quota_str period_str = to_option (parse_i64 quota_str) >>? λ quota.
      to_option (parse_i64 period_str) >>? λ period.
      if is_not_positive quota || is_not_positive period
      then none
      else some (quota_cores (fl.of_int quota) (fl.of_int period))

  module _ (sys : Cpus) where
    -- `cgroup_v1_cores`
    unfoldable pub cgroup_v1_cores : Option ℕ
    cgroup_v1_cores = sys.cfs_quota_us >>? λ quota.
        sys.cfs_period_us >>? λ period. parse_cgroup_v1 (trim_list quota) (trim_list period)

    -- `effective_quota_cores`
    unfoldable pub effective_quota_cores : Option ℕ
    effective_quota_cores = elim (sys.cpu_max >>? parse_cgroup_v2_max) [
      | some cores ↦ some cores
      | none ↦ cgroup_v1_cores
    ]

    -- `effective_core_count`
    unfoldable pub effective_core_count : ℕ
    effective_core_count = elim effective_quota_cores [
      | some cores ↦ cores
      | none ↦ elim sys.available_parallelism [ some n ↦ n | none ↦ 1 ]
    ]

pub record DispatchInfo : Type 0 where
  pub effective_cores : ℕ
  pub disk_type : DiskType
  pub chunk_sectors : ℕ

-- `compute`, with what `disk_type_for_path` finds.
unfoldable pub compute : QuotaFloats → Cpus → DiskType → DispatchInfo
compute fl sys disk = record {
  effective_cores = effective_core_count fl sys;
  disk_type = disk;
  chunk_sectors = 4096 / sector_size;
}
