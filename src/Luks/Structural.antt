-- ===== src/Luks/Structural.antt =====
-- crates/nocap-crypt-luks/src/structural.rs: the checks of a volume without a header.
use nocap_crypt.Base.{
  ℕ, ◌%◌, ◌≡◌, ◌↔◌, ◌⊎◌, Bool, true, false, ◌&&◌, ◌==◌, String, str_eq, str_eq_iff, arith,
}
use nocap_crypt.Base.Result.{ok, err}
use nocap_crypt.Core.CipherSpec.{parse, as_str}
use nocap_crypt.Core.Iv.{sector_size}

pub record StructuralReport : Type 0 where
  pub file_size : ℕ
  pub sector_size : ℕ
  pub size_is_sector_multiple : Bool
  pub cipher_spec_round_trips : Bool

-- `StructuralReport::passes`
unfoldable pub structural_passes : StructuralReport → Bool
structural_passes report = report.size_is_sector_multiple && report.cipher_spec_round_trips

-- The `match` of `validate_plain_structural`.
unfoldable pub round_trips : String → Bool
round_trips cipher_spec_str = elim (parse cipher_spec_str) [
  | ok spec ↦ str_eq (as_str spec) cipher_spec_str
  | err e ↦ false
]

-- `validate_plain_structural`
unfoldable pub validate_plain_structural : ℕ → String → StructuralReport
validate_plain_structural file_size cipher_spec_str = record {
  file_size = file_size;
  sector_size = 512;
  size_is_sector_multiple = file_size % 512 == 0;
  cipher_spec_round_trips = round_trips cipher_spec_str;
}

-- A volume passes exactly if it is whole sectors long and the spec is one of the two that the engine
-- knows.
pub validate_plain_structural-passes :
    (file_size : ℕ) (spec : String)
    → (structural_passes (validate_plain_structural file_size spec) ≡ true) ↔ (
        (file_size % sector_size ≡ 0)
        × ((spec ≡ "aes-xts-plain64") ⊎ (spec ≡ "aes-cbc-essiv:sha256")))
unfolding structural_passes validate_plain_structural round_trips parse as_str
validate_plain_structural-passes file_size spec = ground (
  arith,
  str_eq_iff spec "aes-xts-plain64",
  str_eq_iff spec "aes-cbc-essiv:sha256",
  str_eq_iff "aes-xts-plain64" spec,
  str_eq_iff "aes-cbc-essiv:sha256" spec,
)
