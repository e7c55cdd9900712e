-- ===== src/Cli/Console.antt =====
-- What the commands of crates/nocap-crypt-cli share: a command reports events and ends with an exit
-- code. The texts of errors are those of the crates' `Display`.
use Prim.Native.String.{◌++◌ as ◌<>◌}
use nocap_crypt.Base.{
  ℕ, ◌≡◌, refl, Bool, true, false, List, [], ◌∷◌, String, if◌then◌else◌, Bool-cases, inl, inr,
}
use nocap_crypt.Base.Text.{show_nat}
use nocap_crypt.Core.CipherSpec.{
  CipherSpecError, unknown_spec, unsupported_xts_key_size, unsupported_essiv_key_size,
  unsupported_key_size,
}
use nocap_crypt.Core.Engine.{KeyError, wrong_length}
use nocap_crypt.Keymgmt.Format.{
  KeyFormat, raw, hex, base64, KeyParseError, not_utf8, invalid_hex, invalid_base64,
}
use nocap_crypt.Keymgmt.Validate.{
  KeyValidationError, length_mismatch, all_zero, low_entropy, repeating_pattern,
}
use nocap_crypt.Cli.ExitCode.{ExitCode, success}
use nocap_crypt.Cli.KeyLoad.{KeyLoadError, io, parse_error}
use nocap_crypt.Ui.Event.{Numbers, Event, narration, error}

-- The surroundings of a command: the format of figures, `Reporter::narrates`, the `Display` of an error
-- number of the system, and the `Debug` of a text.
pub record Console : Type 1 where
  pub numbers : Numbers
  pub narrates : Bool
  pub os_text : ℕ → String
  pub debug : String → String

-- What a command has reported, in order, and its exit code.
abbrev pub Ran : Console → Type 0
Ran c = List (Event c.numbers.floats.F) × ExitCode

abbrev pub is_error : {F : Type 0} → Event F → Bool
is_error (error text) = true
is_error _ = false

abbrev pub has_error : {F : Type 0} → List (Event F) → Bool
has_error [] = false
has_error (event ∷ events) = if is_error event then true else has_error events

abbrev pub fails : ExitCode → Bool
fails success = false
fails _ = true

module _ (c : Console) where
  -- `return exit` where nothing is left to report, and with a last error.
  abbrev pub end : ExitCode → Ran c
  end exit = ([], exit)

  abbrev pub fail : ExitCode → String → Ran c
  fail exit text = (error text ∷ [], exit)

  -- An event before the rest of a command.
  abbrev pub say : Event c.numbers.floats.F → Ran c → Ran c
  say event r = (event ∷ r.0, r.1)

  -- `if reporter.narrates() { reporter.report(Event::Narration { text }) }`
  abbrev pub tell : String → Ran c → Ran c
  tell text r = if c.narrates then say (narration text) r else r

  -- An error is among the events exactly if the exit code is not success.
  abbrev pub IsLoud : Ran c → Type 0
  IsLoud r = has_error r.0 ≡ fails r.1

  pub tell-IsLoud : (text : String) (r : Ran c) → IsLoud r → IsLoud (tell text r)
  tell-IsLoud text r h = elim (Bool-cases c.narrates) [ inl on ↦ rw on h | inr off ↦ rw off h ]

  pub tell-exit : (text : String) (r : Ran c) → (tell text r).1 ≡ r.1
  tell-exit text r = elim (Bool-cases c.narrates) [ inl on ↦ rw on refl | inr off ↦ rw off refl ]

  -- `Display` of the errors.
  unfoldable pub spec_error_text : CipherSpecError → String
  spec_error_text (unknown_spec spec) =
      "unrecognized cipher spec "
      <> c.debug spec
      <> " (supported: aes-xts-plain64, aes-cbc-essiv:sha256)"
  spec_error_text (unsupported_xts_key_size bits) =
      "XTS does not support a " <> show_nat bits <> "-bit AES key (supported: 128, 256)"
  spec_error_text (unsupported_essiv_key_size bits) =
      "aes-cbc-essiv:sha256 requires a 256-bit AES key (SHA-256's 32-byte digest must match the "
      <> "ESSIV cipher's key size); got "
      <> show_nat bits
      <> " bits"
  spec_error_text (unsupported_key_size bits) =
      "unsupported AES key size: " <> show_nat bits <> " bits (supported: 128, 192, 256)"

  format_debug : KeyFormat → String
  format_debug raw = "Raw"
  format_debug hex = "Hex"
  format_debug base64 = "Base64"

  unfoldable pub parse_error_text : KeyParseError → String
  unfolding format_debug
  parse_error_text (not_utf8 format) =
      "key material is not valid UTF-8 text, required to decode as " <> format_debug format
  parse_error_text (invalid_hex e) = "invalid hex key material: " <> e
  parse_error_text (invalid_base64 e) = "invalid base64 key material: " <> e

  unfoldable pub load_error_text : KeyLoadError → String
  load_error_text (io n) = "reading key file: " <> c.os_text n
  load_error_text (parse_error e) = "parsing key material: " <> parse_error_text e

  unfoldable pub validation_error_text : KeyValidationError c.numbers.floats → String
  validation_error_text (length_mismatch cipher expected actual) =
      "key length mismatch: cipher "
      <> cipher
      <> " requires "
      <> show_nat expected
      <> " bytes, got "
      <> show_nat actual
  validation_error_text all_zero = "key is all-zero bytes"
  validation_error_text (low_entropy bits_per_byte minimum) =
      "key entropy too low: "
      <> c.numbers.fixed 2 bits_per_byte
      <> " bits/byte (minimum "
      <> c.numbers.fixed 2 minimum
      <> ")"
  validation_error_text (repeating_pattern period) =
      "key bytes repeat with period "
      <> show_nat period
      <> " — looks like a repeating pattern, not random key material"

  unfoldable pub engine_error_text : KeyError → String
  engine_error_text (wrong_length expected actual) =
      "expected a " <> show_nat expected <> "-byte key, got " <> show_nat actual <> " bytes"
