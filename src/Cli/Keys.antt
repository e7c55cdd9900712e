-- ===== src/Cli/Keys.antt =====
-- crates/nocap-crypt-cli/src/cmd/keygen.rs and keycheck.rs, with all that they report.
pub mod Ends
mod Tests
use Prim.Native.String.{◌++◌ as ◌<>◌}
use nocap_crypt.Base.{
  ℕ, ◌≡◌, refl, sym, ap, ◌∙◌, subst, ◌⊎◌, inl, inr, Bool, true, false, Option, none, some, List,
  length, String, if◌then◌else◌, Bool-cases, Option-cases, arith,
}
use nocap_crypt.Base.Result.{Result, ok, err, Result-cases}
use nocap_crypt.Base.Text.{show_nat}
use nocap_crypt.Core.CipherSpec.{
  CipherMode, xts_plain64, cbc_essiv_sha256, CipherSpec, as_str, bits,
}
use nocap_crypt.Core.Primitives.{Primitives}
use nocap_crypt.Entropy.Scores.{shannon_entropy, shannon_entropy_ceiling, is_uniform}
use nocap_crypt.Keymgmt.Format.{Decoders}
use nocap_crypt.Keymgmt.KeyFile.{
  SysRng, Entry, Fs, KeyFileWriteError, already_exists, generate_key, write_key_file, exists,
  opened_mode, Written, refused, unopened, cut_short, stored, write_key_file-Written,
}
use nocap_crypt.Keymgmt.Represent.{redacted, hex_grouped}
use nocap_crypt.Keymgmt.Validate.{KeyValidationReport, validate_key}
use nocap_crypt.Cli.ExitCode.{ExitCode, success, io, key_validation, unsupported_cipher}
use nocap_crypt.Cli.KeyLoad.{
  CipherArg, KeyFormatArg, KeyLoadError, load_key_file, resolve_cipher_spec,
}
use nocap_crypt.Cli.Console.{
  Console, Ran, end, fail, fails, say, tell, IsLoud, tell-IsLoud, spec_error_text, load_error_text,
  validation_error_text,
}
use nocap_crypt.Ui.Event.{Event, cipher_selected, entropy_score, message, show_bool}
use nocap_crypt.Ui.Explain.{
  explain_key_generation, explain_entropy_result_key, explain_keycheck_length,
}

pub record KeygenArgs : Type 0 where
  pub cipher : CipherArg
  pub key_size : Option ℕ
  pub output : String
  pub force : Bool

pub record KeycheckArgs : Type 0 where
  pub key_file : String
  pub key_format : KeyFormatArg
  pub cipher : CipherArg
  pub key_size : Option ℕ
  pub reveal : Bool

abbrev pub is_xts : CipherMode → Bool
is_xts xts_plain64 = true
is_xts cbc_essiv_sha256 = false

module _ (c : Console) (p : Primitives) where
  open c use {numbers}
  open numbers use {floats, fixed}

  -- `Display` of `KeyFileWriteError`
  unfoldable pub write_error_text : String → KeyFileWriteError → String
  write_error_text path already_exists =
      "key file already exists at " <> path <> " (pass --force to overwrite)"
  write_error_text path (KeyFileWriteError.io n) = "io error writing key file: " <> c.os_text n

  -- What `keygen` reports of a key that was written.
  unfoldable pub keygen_report : KeygenArgs → CipherSpec → List ℕ → Ran c
  keygen_report args spec key = say c (cipher_selected (as_str spec) (bits spec.aes_bits)) (
      tell c (explain_key_generation (length key) (is_xts spec.mode)) (
        say c
          (message (
            "wrote "
            <> show_nat (length key)
            <> "-byte key to "
            <> args.output
            <> " ("
            <> redacted p key
            <> ")"))
          (let entropy = shannon_entropy floats key in
            if c.narrates
            then say c (entropy_score entropy (is_uniform floats key floats.z_95))
                (tell c (explain_entropy_result_key numbers entropy (length key)) (end c success))
            else end c success)))

  -- What is reported after `write_key_file`, and what is at the path then.
  unfoldable pub keygen_written :
      KeygenArgs
      → CipherSpec
      → List ℕ
      → Result KeyFileWriteError (Unit {0}) × Option Entry
      → Ran c × Option Entry
  keygen_written args spec key w = elim w.0 [
    | err e ↦ (fail c io (write_error_text args.output e), w.1)
    | ok u ↦ (keygen_report args spec key, w.1)
  ]

  -- `keygen::run` where `path` is at the output; with what is there afterwards. `none` is the panic of
  -- `generate_key`.
  unfoldable pub run_keygen :
      SysRng → Fs → Option Entry → KeygenArgs → Option (Ran c × Option Entry)
  run_keygen rng fs path args = elim (resolve_cipher_spec args.cipher args.key_size) [
    | err e ↦ some (fail c unsupported_cipher (spec_error_text c e), path)
    | ok spec ↦ elim (generate_key rng spec) [
      | none ↦ none
      | some key ↦ some (keygen_written args spec key (write_key_file fs path key args.force))
    ]
  ]

  -- The note on the score of a key.
  unfoldable pub entropy_note : KeyValidationReport floats → String
  entropy_note report =
      "entropy note: "
      <> fixed 4 report.shannon_bits_per_byte
      <> " bits/byte is expected here, not low — a "
      <> show_nat report.actual_bytes
      <> "-byte sample can't exceed ~"
      <> fixed 2 (shannon_entropy_ceiling floats report.actual_bytes)
      <> " bits/byte on this metric no matter how random the source is (too few bytes to occupy all "
      <> "256 possible values). Chi-square uniform@95% ("
      <> show_bool report.chi_square_uniform_95
      <> ") is the signal that actually accounts for sample size."

  -- The end of `keycheck`, for a key that is valid.
  unfoldable pub keycheck_summary : KeycheckArgs → KeyValidationReport floats → List ℕ → Ran c
  keycheck_summary args report key =
      say c
        (message (
          "key OK: "
          <> show_nat report.actual_bytes
          <> " bytes (required "
          <> show_nat report.required_bytes
          <> "), "
          <> redacted p key))
        (if args.reveal
          then say c (message ("key material: " <> hex_grouped key)) (end c success)
          else end c success)

  unfoldable pub keycheck_report :
      KeycheckArgs → CipherSpec → KeyValidationReport floats → List ℕ → Ran c
  keycheck_report args spec report key =
      say c (cipher_selected (as_str spec) (bits spec.aes_bits)) (
        say c (entropy_score report.shannon_bits_per_byte report.chi_square_uniform_95) (
          say c (message (entropy_note report)) (
            tell c explain_keycheck_length (
              tell c
                (explain_entropy_result_key numbers report.shannon_bits_per_byte
                  report.actual_bytes)
                (keycheck_summary args report key)))))

  -- `keycheck::run`, on what reading the key file gives.
  unfoldable pub run_keycheck : Decoders → Result ℕ (List ℕ) → KeycheckArgs → Ran c
  run_keycheck d read args = elim (resolve_cipher_spec args.cipher args.key_size) [
    | err e ↦ fail c unsupported_cipher (spec_error_text c e)
    | ok spec ↦ elim (load_key_file d read args.key_format) [
      | err e ↦ fail c io (load_error_text c e)
      | ok key ↦ elim (validate_key floats spec key) [
        | err e ↦ fail c key_validation (validation_error_text c e)
        | ok report ↦ keycheck_report args spec report key
      ]
    ]
  ]
