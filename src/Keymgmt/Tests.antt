-- ===== src/Keymgmt/Tests.antt =====
-- The theorems on keys and key files at work.
use nocap_crypt.Base.{
  ℕ, zero, suc, ◌≤◌, ◌≡◌, ◌≢◌, ◌↔◌, inl, inr, refl, subst, true, false, none, some, some_injective,
  List, [], ◌∷◌, length, replicate, length-replicate, arith,
}
use nocap_crypt.Base.Bytes.{IsBytes, zeros-IsBytes}
use nocap_crypt.Base.Result.{ok}
use nocap_crypt.Core.CipherSpec.{
  xts_plain64, cbc_essiv_sha256, bits192, bits256, bytes, CipherSpec, required_key_bytes,
}
use nocap_crypt.Core.Primitives.Toy.{toy, toy-IsLawful}
use nocap_crypt.Core.Engine.{SectorEngine, new}
use nocap_crypt.Core.Engine.Laws.Keyed.{IsKeyed}
use nocap_crypt.Entropy.Blind.{blind}
use nocap_crypt.Entropy.Scores.{shannon_entropy, is_uniform}
use nocap_crypt.Keymgmt.KeyFile.{
  SysRng, IsRng, generate_key, generate_key-new, Fs, Entry, Written, write_key_file,
  write_key_file-Written,
}
use nocap_crypt.Keymgmt.Pattern.{
  find_period, repeats, all_chunks, detect_repeating_pattern, IsPeriod,
}
use nocap_crypt.Keymgmt.Pattern.Search.{detect_repeating_pattern_lem}
use nocap_crypt.Keymgmt.Validate.{
  KeyValidationReport, is_zero, check_entropy, validate_key, validate_key-ok, validate_key-new,
}

abbrev rng : SysRng
rng n = some (replicate n 0)

rng-IsRng : IsRng rng
rng-IsRng = record {
  filled = λ n {key} h.
      subst (λ (k : List ℕ). (length k ≡ n) × IsBytes k) (some_injective h)
        (length-replicate {A = ℕ} n 0, zeros-IsBytes n);
}

abbrev spec : CipherSpec
spec = record { mode = xts_plain64; aes_bits = bits256 }

generated : generate_key rng spec ≡ some (replicate (required_key_bytes spec) 0)
unfolding generate_key
generated = refl

not_192 : bits256 ≢ bits192
not_192 e = cc

toy_key_fits :
    (e : SectorEngine) × (new toy spec (replicate (required_key_bytes spec) 0) ≡ ok e) × IsKeyed e
toy_key_fits = generate_key-new toy toy-IsLawful rng rng-IsRng spec (inl (refl, not_192)) generated

abbrev fs : Fs
fs = record { open_error = none; masked = λ mode. mode; write_all = λ key. ok tt }

abbrev entry : Entry
entry = record { content = 1 ∷ []; mode = 420 }

write_key_file-Written_example :
    Written fs (some entry) (7 ∷ 8 ∷ []) true (write_key_file fs (some entry) (7 ∷ 8 ∷ []) true)
write_key_file-Written_example = write_key_file-Written fs (some entry) (7 ∷ 8 ∷ []) true

abbrev patterned : List ℕ
patterned = 1 ∷ 2 ∷ 1 ∷ 2 ∷ []

detect_repeating_pattern_lem_example :
    (detect_repeating_pattern patterned ≡ some 2)
    ↔ (IsPeriod patterned 2 × ((other : ℕ) → IsPeriod patterned other → 2 ≤ other))
detect_repeating_pattern_lem_example = detect_repeating_pattern_lem patterned 2

abbrev essiv_spec : CipherSpec
essiv_spec = record { mode = cbc_essiv_sha256; aes_bits = bits256 }

abbrev key32 : List ℕ
key32 = 1 ∷ replicate 31 2

twos : (n : ℕ) → IsBytes (replicate n 2)
twos zero = tt
twos (suc n) = (omega arith, twos n)

key32-IsBytes : IsBytes key32
key32-IsBytes = (omega arith, twos 31)

abbrev report : KeyValidationReport blind
report = record {
  required_bytes = 32;
  actual_bytes = 32;
  shannon_bits_per_byte = tt;
  chi_square_uniform_95 = true;
}

validated : validate_key blind essiv_spec key32 ≡ ok report
unfolding validate_key check_entropy is_zero detect_repeating_pattern find_period repeats all_chunks
    required_key_bytes bytes is_uniform
validated = refl

validate_key-ok_example :
    (32 ≡ required_key_bytes essiv_spec)
    × (key32 ≢ replicate 32 0)
    × ((period : ℕ) → ¬ IsPeriod key32 period)
    × (false ≡ false)
    × (report.required_bytes ≡ required_key_bytes essiv_spec)
    × (report.actual_bytes ≡ length key32)
    × (report.shannon_bits_per_byte ≡ shannon_entropy blind key32)
    × (report.chi_square_uniform_95 ≡ is_uniform blind key32 blind.z_95)
validate_key-ok_example = validate_key-ok blind essiv_spec key32 validated

validate_key-new_example : (e : SectorEngine) × (new toy essiv_spec key32 ≡ ok e) × IsKeyed e
validate_key-new_example =
    validate_key-new blind toy toy-IsLawful essiv_spec key32 (inr (refl, refl)) key32-IsBytes
      validated
