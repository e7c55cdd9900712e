-- ===== src/Cli/EnvConfig/Tests.antt =====
-- An operation from an environment.
use nocap_crypt.Base.{
  ℕ, ◌≡◌, refl, inl, inr, false, Option, none, some, List, String, str_eq, if◌then◌else◌, arith,
}
use nocap_crypt.Base.Result.{Result, ok, err}
use nocap_crypt.Base.Text.{codes}
use nocap_crypt.Base.Decimal.{
  parse_uint, parse_digits, add_digit, to_decimal, digits, parse_int_text,
}
use nocap_crypt.Base.Bytes.{bytes_eq}
use nocap_crypt.Cli.KeyLoad.{
  CipherArg, aes_xts_plain64, aes_cbc_essiv_sha256, cipher_name, KeyFormatArg, auto, raw_arg,
  hex_arg, base64_arg,
}
use nocap_crypt.Cli.EnvConfig.{
  EncryptArgs, encrypt, Env, optional, require, optional_parsed, read_number, not_valid,
  resolve_from_env,
}
use nocap_crypt.Cli.EnvConfig.Spelled.{
  IsValueEnum, SpelledEncrypt, key_format_name, resolve_from_env-Spelled,
}
use nocap_crypt.Cli.EnvConfig.Blame.{Blames, resolve_from_env-Blames}

abbrev key_format_from_str : List ℕ → Result String KeyFormatArg
key_format_from_str s =
    if bytes_eq s (codes "auto")
    then ok auto
    else if bytes_eq s (codes "raw")
    then ok raw_arg
    else if bytes_eq s (codes "hex")
    then ok hex_arg
    else if bytes_eq s (codes "base64")
    then ok base64_arg
    else err "invalid variant"

abbrev cipher_from_str : List ℕ → Result String CipherArg
cipher_from_str s =
    if bytes_eq s (codes "aes-xts-plain64")
    then ok aes_xts_plain64
    else if bytes_eq s (codes "aes-cbc-essiv:sha256")
    then ok aes_cbc_essiv_sha256
    else err "invalid variant"

abbrev with_vars : (String → Option (List ℕ)) → Env
with_vars var = record {
  var = var;
  debug = λ s. "?";
  display = λ s. "?";
  key_format_from_str = key_format_from_str;
  cipher_from_str = cipher_from_str;
}

-- The three paths, a key format and a key size.
abbrev pipeline_var : String → Option (List ℕ)
pipeline_var name =
    if str_eq name "NOCAP_CRYPT_OPERATION"
    then some (codes "encrypt")
    else if str_eq name "NOCAP_CRYPT_INPUT"
    then some (codes "in")
    else if str_eq name "NOCAP_CRYPT_OUTPUT"
    then some (codes "out")
    else if str_eq name "NOCAP_CRYPT_KEY_FILE"
    then some (codes "key")
    else if str_eq name "NOCAP_CRYPT_KEY_FORMAT"
    then some (codes "hex")
    else if str_eq name "NOCAP_CRYPT_KEY_SIZE"
    then some (codes "256")
    else none

abbrev pipeline : Env
pipeline = with_vars pipeline_var

abbrev empty : Env
empty = with_vars (λ name. none)

abbrev args : EncryptArgs
args = record {
  input = codes "in";
  output = codes "out";
  key_file = codes "key";
  key_format = hex_arg;
  cipher = aes_xts_plain64;
  key_size = some 256;
  align_block_size = 4096;
  align_extra_block = 1;
  max_workers = none;
  small_file_threshold = 268435456;
  pin_to_submission_thread = false;
  dry_run_cryptsetup_compat = false;
}

values : IsValueEnum pipeline
unfolding cipher_name
values = record {
  key_format-name = λ f. elim f as (λ f. key_format_from_str (codes (key_format_name f)) ≡ ok f) [
    | auto ↦ refl
    | raw_arg ↦ refl
    | hex_arg ↦ refl
    | base64_arg ↦ refl
  ];
  cipher-name = λ c. elim c as (λ c. cipher_from_str (codes (cipher_name c)) ≡ ok c) [
    | aes_xts_plain64 ↦ refl
    | aes_cbc_essiv_sha256 ↦ refl
  ];
}

pipeline_spells : SpelledEncrypt pipeline args
unfolding to_decimal digits
pipeline_spells = record {
  operation = refl;
  input = (refl, refl);
  output = (refl, refl);
  key_file = (refl, refl);
  key_format = inl refl;
  cipher = inr (refl, refl);
  key_size = (omega arith, refl);
  align_block_size = inr (refl, refl);
  align_extra_block = inr (refl, refl);
  max_workers = refl;
  small_file_threshold = inr (refl, refl);
  pin_to_submission_thread = inr (refl, refl);
  dry_run_cryptsetup_compat = refl;
}

resolve_from_env-Spelled_example : resolve_from_env pipeline ≡ ok (encrypt args)
resolve_from_env-Spelled_example =
    resolve_from_env-Spelled pipeline values (encrypt args) pipeline_spells

abbrev operation_missing : String
operation_missing =
    "NOCAP_CRYPT_OPERATION is required (and must be non-empty) for standalone `--ci` invocation"

no_operation : resolve_from_env empty ≡ err operation_missing
unfolding resolve_from_env require optional
no_operation = refl

resolve_from_env-Blames_example : Blames empty operation_missing
resolve_from_env-Blames_example = resolve_from_env-Blames empty operation_missing no_operation

-- One more than the greatest `u16`.
too_large :
    optional_parsed (with_vars (λ name. some (codes "65536"))) 65535 "NOCAP_CRYPT_KEY_SIZE"
    ≡ err "NOCAP_CRYPT_KEY_SIZE=? is not valid: number too large to fit in target type"
unfolding optional_parsed optional read_number not_valid parse_uint parse_digits add_digit
    parse_int_text
too_large = refl
