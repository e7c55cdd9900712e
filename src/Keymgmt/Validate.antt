-- ===== src/Keymgmt/Validate.antt =====
-- crates/nocap-crypt-keymgmt/src/validate.rs, `validate_key`: the checks on a key, in their order.
use nocap_crypt.Base.{
  ℕ, ◌≡◌, ◌≢◌, ◌↔◌, inl, inr, refl, sym, ap, Bool, true, false, ◌&&◌, none, some, List, [], ◌∷◌,
  length, replicate, ◌==◌, if◌then◌else◌, Bool-cases, Option-cases, String, arith,
}
use nocap_crypt.Base.Bytes.{IsBytes}
use nocap_crypt.Base.Result.{Result, ok, err, ok_injective, not_ok}
use nocap_crypt.Core.CipherSpec.{CipherSpec, required_key_bytes, as_str}
use nocap_crypt.Core.CipherSpec.Laws.{IsSupported}
use nocap_crypt.Core.Primitives.{Primitives, IsLawful}
use nocap_crypt.Core.Engine.{SectorEngine, new}
use nocap_crypt.Core.Engine.Laws.Keyed.{IsKeyed, new-ok}
use nocap_crypt.Entropy.Floats.{Floats}
use nocap_crypt.Entropy.Scores.{shannon_entropy, is_uniform}
use nocap_crypt.Keymgmt.Pattern.{detect_repeating_pattern, IsPeriod}
use nocap_crypt.Keymgmt.Pattern.Search.{detect_repeating_pattern-none}

pub data KeyValidationError (fl : Floats) : Type 0 where
  -- cipher, expected and actual
  length_mismatch : String → ℕ → ℕ → KeyValidationError fl
  all_zero : KeyValidationError fl
  -- bits per byte and the minimum
  low_entropy : fl.F → fl.F → KeyValidationError fl
  repeating_pattern : ℕ → KeyValidationError fl

pub record KeyValidationReport (fl : Floats) : Type 0 where
  pub required_bytes : ℕ
  pub actual_bytes : ℕ
  pub shannon_bits_per_byte : fl.F
  pub chi_square_uniform_95 : Bool

-- MIN_KEY_ENTROPY_BITS_PER_BYTE: 3.0
abbrev pub min_key_entropy_bits_per_byte : (fl : Floats) → fl.F
min_key_entropy_bits_per_byte fl = fl.of_nat 3

-- `key.iter().all(|&b| b == 0)`
unfoldable pub is_zero : List ℕ → Bool
is_zero [] = true
is_zero (b ∷ bs) = b == 0 && is_zero bs

module _ (fl : Floats) where
  -- The last check, and the report.
  unfoldable pub check_entropy :
      ℕ → List ℕ → Result (KeyValidationError fl) (KeyValidationReport fl)
  check_entropy expected key =
      let bits_per_byte = shannon_entropy fl key in
      let minimum = min_key_entropy_bits_per_byte fl in
      if fl.lt bits_per_byte minimum
      then err (low_entropy bits_per_byte minimum)
      else ok (record {
        required_bytes = expected;
        actual_bytes = length key;
        shannon_bits_per_byte = bits_per_byte;
        chi_square_uniform_95 = is_uniform fl key fl.z_95;
      })

  -- `validate_key`
  unfoldable pub validate_key :
      CipherSpec → List ℕ → Result (KeyValidationError fl) (KeyValidationReport fl)
  validate_key spec key =
      let expected = required_key_bytes spec in
      if length key == expected
      then (if is_zero key then err all_zero else elim (detect_repeating_pattern key) [
        | some period ↦ err (repeating_pattern period)
        | none ↦ check_entropy expected key
      ])
      else err (length_mismatch (as_str spec) expected (length key))

is_zero_iff : (key : List ℕ) → (is_zero key ≡ true) ↔ (key ≡ replicate (length key) 0)
unfolding is_zero
is_zero_iff [] = (λ h. refl, λ h. refl)
is_zero_iff (b ∷ bs) = (λ h. to (is_zero_iff bs).0 h, λ h. from (is_zero_iff bs).1 h)
  where
    to :
        (is_zero bs ≡ true → bs ≡ replicate (length bs) 0)
        → (b == 0 && is_zero bs) ≡ true
        → b ∷ bs ≡ 0 ∷ replicate (length bs) 0
    to rest h = let both : (b ≡ 0) × (is_zero bs ≡ true) = ground arith in cc (both.0, rest both.1)

    from :
        (bs ≡ replicate (length bs) 0 → is_zero bs ≡ true)
        → b ∷ bs ≡ 0 ∷ replicate (length bs) 0
        → (b == 0 && is_zero bs) ≡ true
    from rest e =
        let head : b ≡ 0 = cc in
        let tail : bs ≡ replicate (length bs) 0 = cc in let zeros = rest tail in ground arith

above_floor :
    (fl : Floats) (expected : ℕ) (key : List ℕ) {report : KeyValidationReport fl}
    → check_entropy fl expected key ≡ ok report
    → (fl.lt (shannon_entropy fl key) (min_key_entropy_bits_per_byte fl) ≡ false)
      × (report.required_bytes ≡ expected)
      × (report.actual_bytes ≡ length key)
      × (report.shannon_bits_per_byte ≡ shannon_entropy fl key)
      × (report.chi_square_uniform_95 ≡ is_uniform fl key fl.z_95)
unfolding check_entropy
above_floor fl expected key {report} h =
    elim (Bool-cases (fl.lt (shannon_entropy fl key) (min_key_entropy_bits_per_byte fl))) [
      | inl low ↦ absurd (not_ok (rw (check_entropy, low) at h))
      | inr enough ↦
          let same = ok_injective (rw (check_entropy, enough) at h) in
          (
            enough,
            ap (λ r. r.required_bytes) (sym same),
            ap (λ r. r.actual_bytes) (sym same),
            ap (λ r. r.shannon_bits_per_byte) (sym same),
            ap (λ r. r.chi_square_uniform_95) (sym same),
          )
    ]

-- A key that passes has the length of its cipher, is not all zeros, repeats no shorter pattern, and
-- does not have less entropy than the floor; the report has the length that the cipher asks for and
-- that of the key, the key's entropy, and the outcome of its test for uniformity at 95 percent.
pub validate_key-ok :
    (fl : Floats) (spec : CipherSpec) (key : List ℕ) {report : KeyValidationReport fl}
    → validate_key fl spec key ≡ ok report
    → (length key ≡ required_key_bytes spec)
      × (key ≢ replicate (length key) 0)
      × ((period : ℕ) → ¬ IsPeriod key period)
      × (fl.lt (shannon_entropy fl key) (min_key_entropy_bits_per_byte fl) ≡ false)
      × (report.required_bytes ≡ required_key_bytes spec)
      × (report.actual_bytes ≡ length key)
      × (report.shannon_bits_per_byte ≡ shannon_entropy fl key)
      × (report.chi_square_uniform_95 ≡ is_uniform fl key fl.z_95)
unfolding validate_key
validate_key-ok fl spec key {report} h = elim (Bool-cases (length key == required_key_bytes spec)) [
  | inr short ↦ absurd (not_ok (rw (validate_key, short) at h))
  | inl sized ↦ elim (Bool-cases (is_zero key)) [
    | inl zeros ↦ absurd (not_ok (rw (validate_key, sized, zeros) at h))
    | inr some_bits ↦ elim (Option-cases (detect_repeating_pattern key)) [
      | inr (period, found) ↦ absurd (not_ok (rw (validate_key, sized, some_bits, found) at h))
      | inl none_found ↦
          let scored =
            above_floor fl (required_key_bytes spec) key
              (rw (validate_key, sized, some_bits, none_found) at h) in
          (
            ground arith,
            λ e. absurd (cc (some_bits, (is_zero_iff key).1 e)),
            λ period. detect_repeating_pattern-none key period none_found,
            scored.0,
            scored.1,
            scored.2,
            scored.3,
            scored.4,
          )
    ]
  ]
]

-- A key that passes for a supported spec is one that an engine can be built with.
pub validate_key-new :
    (fl : Floats) (p : Primitives) (lawful : IsLawful p) (spec : CipherSpec) (key : List ℕ)
    {report : KeyValidationReport fl}
    → IsSupported spec
    → IsBytes key
    → validate_key fl spec key ≡ ok report
    → (e : SectorEngine) × (new p spec key ≡ ok e) × IsKeyed e
validate_key-new fl p lawful spec key sup bytes h =
    new-ok p lawful spec key sup bytes (validate_key-ok fl spec key h).0
