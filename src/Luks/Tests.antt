-- ===== src/Luks/Tests.antt =====
-- The theorems on LUKS headers and plain volumes at work.
use nocap_crypt.Base.{ℕ, ◌%◌, ◌≡◌, ◌↔◌, ◌⊎◌, true, some, List, [], ◌∷◌, ◌++◌, String, arith}
use nocap_crypt.Base.Bytes.{IsBytes}
use nocap_crypt.Luks.Header.{
  v2, luks_magic, version_bytes, detect_luks_header, detect_luks_header_iff,
}
use nocap_crypt.Luks.Structural.{
  structural_passes, validate_plain_structural, validate_plain_structural-passes,
}

abbrev volume : List ℕ
volume = 76 ∷ 85 ∷ 75 ∷ 83 ∷ 186 ∷ 190 ∷ 0 ∷ 2 ∷ 9 ∷ []

abbrev xts_name : String
xts_name = "aes-xts-plain64"

volume-IsBytes : IsBytes volume
volume-IsBytes = (
  omega arith,
  (
    omega arith,
    (
      omega arith,
      (omega arith, (omega arith, (omega arith, (omega arith, (omega arith, (omega arith, tt)))))),
    ),
  ),
)

detect_luks_header_iff_example :
    (detect_luks_header volume ≡ some v2)
    ↔ ((rest : List ℕ) × (volume ≡ luks_magic ++ (version_bytes v2 ++ rest)))
detect_luks_header_iff_example = detect_luks_header_iff volume v2 volume-IsBytes

whole_volume_passes :
    (structural_passes (validate_plain_structural 5120 xts_name) ≡ true)
    ↔ ((5120 % 512 ≡ 0) × ((xts_name ≡ "aes-xts-plain64") ⊎ (xts_name ≡ "aes-cbc-essiv:sha256")))
whole_volume_passes = validate_plain_structural-passes 5120 xts_name
