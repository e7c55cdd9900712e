-- ===== src/Cli/EnvConfig/Spelled.antt =====
-- Environments that spell an operation out, and what is read from them.
use nocap_crypt.Base.{
  ℕ, ◌-◌, ◌^◌, ◌≤◌, ◌≡◌, refl, sym, ◌⊎◌, inl, inr, Bool, true, false, Option, none, some, List,
  String,
}
use nocap_crypt.Base.Result.{ok}
use nocap_crypt.Base.Text.{codes, to_ascii_lowercase}
use nocap_crypt.Base.Decimal.{to_decimal, parse_uint-to_decimal, to_decimal-filled}
use nocap_crypt.Worker.Concurrency.{default_small_file_threshold_bytes}
use nocap_crypt.Cli.KeyLoad.{
  CipherArg, aes_xts_plain64, aes_cbc_essiv_sha256, cipher_name, KeyFormatArg, auto, raw_arg,
  hex_arg, base64_arg,
}
use nocap_crypt.Cli.EnvConfig.{
  EncryptArgs, DecryptArgs, Operation, encrypt, decrypt, Env, filled, unwrap_or, is_yes, is_no,
  optional, require, read_number, optional_parsed, read_bool, optional_bool, read_key_format,
  optional_key_format, read_cipher, optional_cipher, encrypt_args_from_env, decrypt_args_from_env,
  resolve_operation, resolve_from_env,
}

-- The names that clap gives the values of `--key-format`.
abbrev pub key_format_name : KeyFormatArg → String
key_format_name auto = "auto"
key_format_name raw_arg = "raw"
key_format_name hex_arg = "hex"
key_format_name base64_arg = "base64"

abbrev bool_name : Bool → String
bool_name true = "true"
bool_name false = "false"

-- The documentation of `ValueEnum`: a value is read from its name.
pub record IsValueEnum (env : Env) : Type 0 where
  pub key_format-name :
      (f : KeyFormatArg) → env.key_format_from_str (codes (key_format_name f)) ≡ ok f
  pub cipher-name : (c : CipherArg) → env.cipher_from_str (codes (cipher_name c)) ≡ ok c

-- A variable that has a text which is not empty.
abbrev IsText : Option (List ℕ) → List ℕ → Type 0
IsText v text = (v ≡ some text) × (filled (some text) ≡ some text)

-- A variable that has a number in the range, or is not set where the number is the default.
abbrev Number : ℕ → ℕ → Option (List ℕ) → ℕ → Type 0
Number bound default v n = (n ≤ bound × (v ≡ some (to_decimal n))) ⊎ ((v ≡ none) × (n ≡ default))

-- A variable that is set if there is a number.
abbrev MaybeNumber : ℕ → Option (List ℕ) → Option ℕ → Type 0
MaybeNumber bound v none = v ≡ none
MaybeNumber bound v (some n) = n ≤ bound × (v ≡ some (to_decimal n))

-- A variable that has a name, or is not set where what is meant is the default.
abbrev Named : {A : Type 0} → (A → String) → A → Option (List ℕ) → A → Type 0
Named name default v a = (v ≡ some (codes (name a))) ⊎ ((v ≡ none) × (a ≡ default))

module _ (env : Env) where
  pub record SpelledEncrypt (args : EncryptArgs) : Type 0 where
    pub operation : env.var "NOCAP_CRYPT_OPERATION" ≡ some (codes "encrypt")
    pub input : IsText (env.var "NOCAP_CRYPT_INPUT") args.input
    pub output : IsText (env.var "NOCAP_CRYPT_OUTPUT") args.output
    pub key_file : IsText (env.var "NOCAP_CRYPT_KEY_FILE") args.key_file
    pub key_format : Named key_format_name auto (env.var "NOCAP_CRYPT_KEY_FORMAT") args.key_format
    pub cipher : Named cipher_name aes_xts_plain64 (env.var "NOCAP_CRYPT_CIPHER") args.cipher
    pub key_size : MaybeNumber (2 ^ 16 - 1) (env.var "NOCAP_CRYPT_KEY_SIZE") args.key_size
    pub align_block_size :
        Number (2 ^ 64 - 1) 4096 (env.var "NOCAP_CRYPT_ALIGN_BLOCK_SIZE") args.align_block_size
    pub align_extra_block :
        Number (2 ^ 64 - 1) 1 (env.var "NOCAP_CRYPT_ALIGN_EXTRA_BLOCK") args.align_extra_block
    pub max_workers : MaybeNumber (2 ^ 64 - 1) (env.var "NOCAP_CRYPT_MAX_WORKERS") args.max_workers
    pub small_file_threshold :
        Number
          (2 ^ 64 - 1)
          default_small_file_threshold_bytes
          (env.var "NOCAP_CRYPT_SMALL_FILE_THRESHOLD")
          args.small_file_threshold
    pub pin_to_submission_thread :
        Named bool_name false
          (env.var "NOCAP_CRYPT_PIN_TO_SUBMISSION_THREAD")
          args.pin_to_submission_thread
    pub dry_run_cryptsetup_compat : args.dry_run_cryptsetup_compat ≡ false

  pub record SpelledDecrypt (args : DecryptArgs) : Type 0 where
    pub operation : env.var "NOCAP_CRYPT_OPERATION" ≡ some (codes "decrypt")
    pub input : IsText (env.var "NOCAP_CRYPT_INPUT") args.input
    pub output : IsText (env.var "NOCAP_CRYPT_OUTPUT") args.output
    pub key_file : IsText (env.var "NOCAP_CRYPT_KEY_FILE") args.key_file
    pub key_format : Named key_format_name auto (env.var "NOCAP_CRYPT_KEY_FORMAT") args.key_format
    pub cipher : Named cipher_name aes_xts_plain64 (env.var "NOCAP_CRYPT_CIPHER") args.cipher
    pub key_size : MaybeNumber (2 ^ 16 - 1) (env.var "NOCAP_CRYPT_KEY_SIZE") args.key_size
    pub max_workers : MaybeNumber (2 ^ 64 - 1) (env.var "NOCAP_CRYPT_MAX_WORKERS") args.max_workers
    pub small_file_threshold :
        Number
          (2 ^ 64 - 1)
          default_small_file_threshold_bytes
          (env.var "NOCAP_CRYPT_SMALL_FILE_THRESHOLD")
          args.small_file_threshold
    pub pin_to_submission_thread :
        Named bool_name false
          (env.var "NOCAP_CRYPT_PIN_TO_SUBMISSION_THREAD")
          args.pin_to_submission_thread

  -- The environment spells the operation.
  abbrev pub Spelled : Operation → Type 0
  Spelled (encrypt args) = SpelledEncrypt args
  Spelled (decrypt args) = SpelledDecrypt args

  require-IsText : (name : String) {s : List ℕ} → IsText (env.var name) s → require env name ≡ ok s
  unfolding require optional
  require-IsText name (e, full) = rw (e, full) refl

  optional_parsed-to_decimal :
      (bound : ℕ) (name : String) (n : ℕ)
      → n ≤ bound
      → env.var name ≡ some (to_decimal n)
      → optional_parsed env bound name ≡ ok (some n)
  unfolding optional_parsed optional read_number
  optional_parsed-to_decimal bound name n h e =
      let (c, cs, full) = to_decimal-filled n in
      rw (e, full, sym full, parse_uint-to_decimal bound n h) refl

  optional_parsed-none :
      (bound : ℕ) (name : String) → env.var name ≡ none → optional_parsed env bound name ≡ ok none
  unfolding optional_parsed optional
  optional_parsed-none bound name e = rw e refl

  optional_parsed-MaybeNumber :
      (bound : ℕ) (name : String) (o : Option ℕ)
      → MaybeNumber bound (env.var name) o
      → optional_parsed env bound name ≡ ok o
  optional_parsed-MaybeNumber bound name none e = optional_parsed-none bound name e
  optional_parsed-MaybeNumber bound name (some n) (h, e) =
      optional_parsed-to_decimal bound name n h e

  optional_parsed-Number :
      (bound default : ℕ) (name : String) (n : ℕ)
      → Number bound default (env.var name) n
      → (o : Option ℕ) × (optional_parsed env bound name ≡ ok o) × (unwrap_or o default ≡ n)
  optional_parsed-Number bound default name n (inl (h, e)) =
      (some n, optional_parsed-to_decimal bound name n h e, refl)
  optional_parsed-Number bound default name n (inr (e, d)) =
      (none, optional_parsed-none bound name e, sym d)

  optional_bool-Named :
      (name : String) (b : Bool)
      → Named bool_name false (env.var name) b
      → (o : Option Bool) × (optional_bool env name ≡ ok o) × (unwrap_or o false ≡ b)
  unfolding optional_bool optional read_bool is_yes is_no to_ascii_lowercase
  optional_bool-Named name true (inl e) = (some true, rw e refl, refl)
  optional_bool-Named name false (inl e) = (some false, rw e refl, refl)
  optional_bool-Named name b (inr (e, d)) = (none, rw e refl, sym d)

  module _ (values : IsValueEnum env) where
    optional_key_format-Named :
        (f : KeyFormatArg)
        → Named key_format_name auto (env.var "NOCAP_CRYPT_KEY_FORMAT") f
        → optional_key_format env ≡ ok f
    unfolding optional_key_format optional read_key_format
    optional_key_format-Named auto (inl e) = rw (e, values.key_format-name auto) refl
    optional_key_format-Named raw_arg (inl e) = rw (e, values.key_format-name raw_arg) refl
    optional_key_format-Named hex_arg (inl e) = rw (e, values.key_format-name hex_arg) refl
    optional_key_format-Named base64_arg (inl e) = rw (e, values.key_format-name base64_arg) refl
    optional_key_format-Named f (inr (e, d)) = rw (e, d) refl

    optional_cipher-Named :
        (a : CipherArg)
        → Named cipher_name aes_xts_plain64 (env.var "NOCAP_CRYPT_CIPHER") a
        → optional_cipher env ≡ ok a
    unfolding optional_cipher optional read_cipher cipher_name
    optional_cipher-Named aes_xts_plain64 (inl e) = rw (e, values.cipher-name aes_xts_plain64) refl
    optional_cipher-Named aes_cbc_essiv_sha256 (inl e) =
        rw (e, values.cipher-name aes_cbc_essiv_sha256) refl
    optional_cipher-Named a (inr (e, d)) = rw (e, d) refl

    encrypt_args_from_env-Spelled :
        (args : EncryptArgs) → SpelledEncrypt args → encrypt_args_from_env env ≡ ok args
    unfolding encrypt_args_from_env
    encrypt_args_from_env-Spelled args s =
        let (block, block_read, block_is) = optional_parsed-Number _ _ _ _ s.align_block_size in
        let (extra, extra_read, extra_is) = optional_parsed-Number _ _ _ _ s.align_extra_block in
        let (small, small_read, small_is) = optional_parsed-Number _ _ _ _ s.small_file_threshold in
        let (pin, pin_read, pin_is) = optional_bool-Named _ _ s.pin_to_submission_thread in
        rw
          (
            require-IsText _ s.input,
            require-IsText _ s.output,
            require-IsText _ s.key_file,
            optional_key_format-Named _ s.key_format,
            optional_cipher-Named _ s.cipher,
            optional_parsed-MaybeNumber _ _ _ s.key_size,
            optional_parsed-MaybeNumber _ _ _ s.max_workers,
            block_read,
            extra_read,
            small_read,
            pin_read,
            block_is,
            extra_is,
            small_is,
            pin_is,
            sym s.dry_run_cryptsetup_compat,
          )
          refl

    decrypt_args_from_env-Spelled :
        (args : DecryptArgs) → SpelledDecrypt args → decrypt_args_from_env env ≡ ok args
    unfolding decrypt_args_from_env
    decrypt_args_from_env-Spelled args s =
        let (small, small_read, small_is) = optional_parsed-Number _ _ _ _ s.small_file_threshold in
        let (pin, pin_read, pin_is) = optional_bool-Named _ _ s.pin_to_submission_thread in
        rw
          (
            require-IsText _ s.input,
            require-IsText _ s.output,
            require-IsText _ s.key_file,
            optional_key_format-Named _ s.key_format,
            optional_cipher-Named _ s.cipher,
            optional_parsed-MaybeNumber _ _ _ s.key_size,
            optional_parsed-MaybeNumber _ _ _ s.max_workers,
            small_read,
            pin_read,
            small_is,
            pin_is,
          )
          refl

    -- An environment that spells an operation, each value in the text that the program prints of it and
    -- each that is the default perhaps left out, is read back as that operation.
    pub resolve_from_env-Spelled :
        (operation : Operation) → Spelled operation → resolve_from_env env ≡ ok operation
    unfolding resolve_from_env resolve_operation
    resolve_from_env-Spelled (encrypt args) s =
        rw (require-IsText _ (s.operation, refl), encrypt_args_from_env-Spelled args s) refl
    resolve_from_env-Spelled (decrypt args) s =
        rw (require-IsText _ (s.operation, refl), decrypt_args_from_env-Spelled args s) refl
