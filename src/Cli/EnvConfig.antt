-- ===== src/Cli/EnvConfig.antt =====
-- crates/nocap-crypt-cli/src/env_config.rs: the operation that a run without a subcommand takes from
-- the environment. A value is its code points.
pub mod Spelled
pub mod Blame
mod Tests
use Prim.Native.String.{◌++◌ as ◌<>◌}
use nocap_crypt.Base.{
  ℕ, ◌-◌, ◌^◌, Bool, true, false, ◌||◌, Option, none, some, List, [], ◌∷◌, String, if◌then◌else◌,
}
use nocap_crypt.Base.Bytes.{bytes_eq}
use nocap_crypt.Base.Result.{Result, ok, err, ◌>>=◌, ok_or, map_err}
use nocap_crypt.Base.Text.{codes, to_ascii_lowercase}
use nocap_crypt.Base.Decimal.{ParseIntError, parse_int_text, parse_uint}
use nocap_crypt.Worker.Concurrency.{default_small_file_threshold_bytes}
use nocap_crypt.Cli.KeyLoad.{CipherArg, aes_xts_plain64, KeyFormatArg, auto}

pub record EncryptArgs : Type 0 where
  pub input : List ℕ
  pub output : List ℕ
  pub key_file : List ℕ
  pub key_format : KeyFormatArg
  pub cipher : CipherArg
  pub key_size : Option ℕ
  pub align_block_size : ℕ
  pub align_extra_block : ℕ
  pub max_workers : Option ℕ
  pub small_file_threshold : ℕ
  pub pin_to_submission_thread : Bool
  pub dry_run_cryptsetup_compat : Bool

pub record DecryptArgs : Type 0 where
  pub input : List ℕ
  pub output : List ℕ
  pub key_file : List ℕ
  pub key_format : KeyFormatArg
  pub cipher : CipherArg
  pub key_size : Option ℕ
  pub max_workers : Option ℕ
  pub small_file_threshold : ℕ
  pub pin_to_submission_thread : Bool

pub data Operation : Type 0 where
  encrypt : EncryptArgs → Operation
  decrypt : DecryptArgs → Operation

-- `std::env::var`, where a variable that is not set or not Unicode gives none; `Debug` and `Display`
-- of a text; and `ValueEnum::from_str` of the two options, without regard to case.
pub record Env : Type 0 where
  pub var : String → Option (List ℕ)
  pub debug : List ℕ → String
  pub display : List ℕ → String
  pub key_format_from_str : List ℕ → Result String KeyFormatArg
  pub cipher_from_str : List ℕ → Result String CipherArg

-- `Option::filter` by `!s.is_empty()`
abbrev pub filled : Option (List ℕ) → Option (List ℕ)
filled none = none
filled (some []) = none
filled (some (c ∷ cs)) = some (c ∷ cs)

-- The spellings that `optional_bool` knows.
unfoldable pub is_yes : List ℕ → Bool
is_yes s = bytes_eq s (codes "1") || bytes_eq s (codes "true") || bytes_eq s (codes "yes")

unfoldable pub is_no : List ℕ → Bool
is_no s = bytes_eq s (codes "0") || bytes_eq s (codes "false") || bytes_eq s (codes "no")

-- `Option::unwrap_or`
abbrev pub unwrap_or {ℓ} : {A : Type ℓ} → Option A → A → A
unwrap_or (some a) b = a
unwrap_or none b = b

-- A value that is read, if there is one.
abbrev pub read_optional {ℓ} :
    {A : Type ℓ} → Option (List ℕ) → (List ℕ → Result String A) → Result String (Option A)
read_optional none read = ok none
read_optional (some s) read = read s >>= λ a. ok (some a)

module _ (env : Env) where
  -- `optional`
  unfoldable pub optional : String → Option (List ℕ)
  optional name = filled (env.var name)

  -- `require` and `require_path`
  unfoldable pub require : String → Result String (List ℕ)
  require name =
      ok_or (optional name)
        (name <> " is required (and must be non-empty) for standalone `--ci` invocation")

  -- `{name}={s:?} is not valid: {e}`
  unfoldable pub not_valid : String → List ℕ → String → String
  not_valid name s e = name <> ("=" <> env.debug s <> " is not valid: " <> e)

  -- `optional_parsed` for the unsigned type whose greatest value is `bound`.
  unfoldable pub read_number : ℕ → String → List ℕ → Result String ℕ
  read_number bound name s = map_err (parse_uint bound s) (λ e. not_valid name s (parse_int_text e))

  unfoldable pub optional_parsed : ℕ → String → Result String (Option ℕ)
  optional_parsed bound name = read_optional (optional name) (read_number bound name)

  -- `optional_bool`
  unfoldable pub read_bool : String → List ℕ → Result String Bool
  read_bool name s =
      if is_yes (to_ascii_lowercase s)
      then ok true
      else if is_no (to_ascii_lowercase s)
      then ok false
      else err
          (name <> ("=" <> env.debug s <> " is not a valid boolean (use 1/0, true/false, yes/no)"))

  unfoldable pub optional_bool : String → Result String (Option Bool)
  optional_bool name = read_optional (optional name) (read_bool name)

  -- `optional_key_format`
  unfoldable pub read_key_format : List ℕ → Result String KeyFormatArg
  read_key_format s = map_err (env.key_format_from_str s) (not_valid "NOCAP_CRYPT_KEY_FORMAT" s)

  unfoldable pub optional_key_format : Result String KeyFormatArg
  optional_key_format =
      read_optional (optional "NOCAP_CRYPT_KEY_FORMAT") read_key_format >>= λ format.
      ok (unwrap_or format auto)

  -- `optional_cipher`
  unfoldable pub read_cipher : List ℕ → Result String CipherArg
  read_cipher s = map_err (env.cipher_from_str s) (not_valid "NOCAP_CRYPT_CIPHER" s)

  unfoldable pub optional_cipher : Result String CipherArg
  optional_cipher = read_optional (optional "NOCAP_CRYPT_CIPHER") read_cipher >>= λ cipher.
      ok (unwrap_or cipher aes_xts_plain64)

  -- `encrypt_args_from_env`
  unfoldable pub encrypt_args_from_env : Result String EncryptArgs
  encrypt_args_from_env = do
    input ← require "NOCAP_CRYPT_INPUT"
    output ← require "NOCAP_CRYPT_OUTPUT"
    key_file ← require "NOCAP_CRYPT_KEY_FILE"
    key_format ← optional_key_format
    cipher ← optional_cipher
    key_size ← optional_parsed (2 ^ 16 - 1) "NOCAP_CRYPT_KEY_SIZE"
    align_block_size ← optional_parsed (2 ^ 64 - 1) "NOCAP_CRYPT_ALIGN_BLOCK_SIZE"
    align_extra_block ← optional_parsed (2 ^ 64 - 1) "NOCAP_CRYPT_ALIGN_EXTRA_BLOCK"
    max_workers ← optional_parsed (2 ^ 64 - 1) "NOCAP_CRYPT_MAX_WORKERS"
    small_file_threshold ← optional_parsed (2 ^ 64 - 1) "NOCAP_CRYPT_SMALL_FILE_THRESHOLD"
    pin_to_submission_thread ← optional_bool "NOCAP_CRYPT_PIN_TO_SUBMISSION_THREAD"
    ok (record {
      input = input;
      output = output;
      key_file = key_file;
      key_format = key_format;
      cipher = cipher;
      key_size = key_size;
      align_block_size = unwrap_or align_block_size 4096;
      align_extra_block = unwrap_or align_extra_block 1;
      max_workers = max_workers;
      small_file_threshold = unwrap_or small_file_threshold default_small_file_threshold_bytes;
      pin_to_submission_thread = unwrap_or pin_to_submission_thread false;
      dry_run_cryptsetup_compat = false;
    })

  -- `decrypt_args_from_env`
  unfoldable pub decrypt_args_from_env : Result String DecryptArgs
  decrypt_args_from_env = do
    input ← require "NOCAP_CRYPT_INPUT"
    output ← require "NOCAP_CRYPT_OUTPUT"
    key_file ← require "NOCAP_CRYPT_KEY_FILE"
    key_format ← optional_key_format
    cipher ← optional_cipher
    key_size ← optional_parsed (2 ^ 16 - 1) "NOCAP_CRYPT_KEY_SIZE"
    max_workers ← optional_parsed (2 ^ 64 - 1) "NOCAP_CRYPT_MAX_WORKERS"
    small_file_threshold ← optional_parsed (2 ^ 64 - 1) "NOCAP_CRYPT_SMALL_FILE_THRESHOLD"
    pin_to_submission_thread ← optional_bool "NOCAP_CRYPT_PIN_TO_SUBMISSION_THREAD"
    ok (record {
      input = input;
      output = output;
      key_file = key_file;
      key_format = key_format;
      cipher = cipher;
      key_size = key_size;
      max_workers = max_workers;
      small_file_threshold = unwrap_or small_file_threshold default_small_file_threshold_bytes;
      pin_to_submission_thread = unwrap_or pin_to_submission_thread false;
    })

  -- The `match` on the operation.
  unfoldable pub resolve_operation : List ℕ → Result String Operation
  resolve_operation operation =
      if bytes_eq operation (codes "encrypt")
      then (encrypt_args_from_env >>= λ args. ok (encrypt args))
      else if bytes_eq operation (codes "decrypt")
      then (decrypt_args_from_env >>= λ args. ok (decrypt args))
      else err (
          "NOCAP_CRYPT_OPERATION"
          <> ("="
              <> env.debug operation
              <> " is not yet supported for standalone `--ci` invocation (supported: encrypt, decrypt)"
              <> " — run with an explicit subcommand instead, e.g. `nocap-crypt --ci "
              <> env.display operation
              <> " ...`"))

  -- `resolve_from_env`
  unfoldable pub resolve_from_env : Result String Operation
  resolve_from_env = require "NOCAP_CRYPT_OPERATION" >>= λ operation. resolve_operation operation
