-- ===== src/Cli/EnvConfig/Blame.antt =====
-- What an error of `resolve_from_env` says of the environment.
use Prim.Native.String.{◌++◌ as ◌<>◌}
use nocap_crypt.Base.{
  ℕ, ◌≡◌, ◌≢◌, refl, sym, ap, ◌∙◌, subst, inl, inr, true, false, none, some, List, String,
  Bool-cases, Option-cases,
}
use nocap_crypt.Base.Bytes.{bytes_eq, bytes_eq_iff}
use nocap_crypt.Base.Result.{Result, ok, err, ◌>>=◌, Result-cases, not_ok}
use nocap_crypt.Base.Text.{codes, to_ascii_lowercase}
use nocap_crypt.Base.Decimal.{ParseIntError, parse_uint}
use nocap_crypt.Cli.EnvConfig.{
  Env, is_yes, is_no, read_optional, optional, require, not_valid, read_number, optional_parsed,
  read_bool, optional_bool, read_key_format, optional_key_format, read_cipher, optional_cipher,
  encrypt_args_from_env, decrypt_args_from_env, resolve_operation, resolve_from_env,
}

-- The spellings of a boolean.
pub data Yes : List ℕ → Type 0 where
  yes_one : Yes (codes "1")
  yes_true : Yes (codes "true")
  yes_yes : Yes (codes "yes")

pub data No : List ℕ → Type 0 where
  no_zero : No (codes "0")
  no_false : No (codes "false")
  no_no : No (codes "no")

-- The variables that must be there.
pub data Required : String → Type 0 where
  needs_operation : Required "NOCAP_CRYPT_OPERATION"
  needs_input : Required "NOCAP_CRYPT_INPUT"
  needs_output : Required "NOCAP_CRYPT_OUTPUT"
  needs_key_file : Required "NOCAP_CRYPT_KEY_FILE"

module _ (env : Env) where
  -- The operation is `encrypt`.
  abbrev pub IsEncrypt : Type 0
  IsEncrypt = optional env "NOCAP_CRYPT_OPERATION" ≡ some (codes "encrypt")

  -- The variables that are numbers, with the greatest value of their types: `u16`, and `u64` or
  -- `usize`. Those of the alignment are for `encrypt` alone.
  pub data NumberOf : String → ℕ → Type 0 where
    u16_key_size : NumberOf "NOCAP_CRYPT_KEY_SIZE" 65535
    u64_align_block : IsEncrypt → NumberOf "NOCAP_CRYPT_ALIGN_BLOCK_SIZE" 18446744073709551615
    u64_align_extra : IsEncrypt → NumberOf "NOCAP_CRYPT_ALIGN_EXTRA_BLOCK" 18446744073709551615
    usize_workers : NumberOf "NOCAP_CRYPT_MAX_WORKERS" 18446744073709551615
    u64_threshold : NumberOf "NOCAP_CRYPT_SMALL_FILE_THRESHOLD" 18446744073709551615

  -- The texts that a variable's reader refuses.
  pub data Malformed : String → List ℕ → Type 0 where
    number :
        (bound : ℕ) (e : ParseIntError) (name : String) (s : List ℕ)
        → NumberOf name bound
        → parse_uint bound s ≡ err e
        → Malformed name s
    flag :
        (s : List ℕ)
        → ¬ Yes (to_ascii_lowercase s)
        → ¬ No (to_ascii_lowercase s)
        → Malformed "NOCAP_CRYPT_PIN_TO_SUBMISSION_THREAD" s
    key_format :
        (e : String) (s : List ℕ)
        → env.key_format_from_str s ≡ err e
        → Malformed "NOCAP_CRYPT_KEY_FORMAT" s
    cipher :
        (e : String) (s : List ℕ) → env.cipher_from_str s ≡ err e → Malformed "NOCAP_CRYPT_CIPHER" s
    operation :
        (s : List ℕ)
        → s ≢ codes "encrypt"
        → s ≢ codes "decrypt"
        → Malformed "NOCAP_CRYPT_OPERATION" s

  -- A message that starts with the name of a variable that is missing or malformed.
  pub data Blames : String → Type 0 where
    missing :
        (name rest : String) → Required name → optional env name ≡ none → Blames (name <> rest)
    malformed :
        (name rest : String) (s : List ℕ)
        → optional env name ≡ some s
        → Malformed name s
        → Blames (name <> rest)

not-Yes : (s : List ℕ) → is_yes s ≡ false → ¬ Yes s
unfolding is_yes
not-Yes _ h yes_one = cc
not-Yes _ h yes_true = cc
not-Yes _ h yes_yes = cc

not-No : (s : List ℕ) → is_no s ≡ false → ¬ No s
unfolding is_no
not-No _ h no_zero = cc
not-No _ h no_false = cc
not-No _ h no_no = cc

err_injective : {A : Type 0} {x y : String} → ◌≡◌ {A = Result String A} (err x) (err y) → x ≡ y
err_injective h = cc

module _ (env : Env) where
  abbrev IsBlaming : {A : Type 0} → Result String A → Type 0
  IsBlaming r = (message : String) → r ≡ err message → Blames env message

  ok-IsBlaming : {A : Type 0} (a : A) → IsBlaming {A = A} (ok a)
  ok-IsBlaming a message e = absurd (not_ok (sym e))

  err-IsBlaming : {A : Type 0} (text : String) → Blames env text → IsBlaming {A = A} (err text)
  err-IsBlaming text b message e = subst (Blames env) (err_injective e) b

  bind-IsBlaming :
      {A B : Type 0} (r : Result String A) (f : A → Result String B)
      → IsBlaming r
      → ((a : A) → IsBlaming (f a))
      → IsBlaming (r >>= f)
  bind-IsBlaming (ok a) f first rest = rest a
  bind-IsBlaming (err text) f first rest = err-IsBlaming text (first text refl)

  require-IsBlaming : (name : String) → Required name → IsBlaming (require env name)
  unfolding require
  require-IsBlaming name needed = elim (Option-cases (optional env name)) [
    | inl absent ↦ rw absent (err-IsBlaming _ (missing name _ needed absent))
    | inr (s, present) ↦ rw present (ok-IsBlaming s)
  ]

  -- A reader that refuses only what is malformed.
  read_optional-IsBlaming :
      {A : Type 0} (name : String) (read : List ℕ → Result String A)
      → ((s : List ℕ) → optional env name ≡ some s → IsBlaming (read s))
      → IsBlaming (read_optional (optional env name) read)
  read_optional-IsBlaming name read h = elim (Option-cases (optional env name)) [
    | inl absent ↦ rw absent (ok-IsBlaming none)
    | inr (s, present) ↦
        rw present (bind-IsBlaming (read s) _ (h s present) (λ a. ok-IsBlaming (some a)))
  ]

  optional_parsed-IsBlaming :
      (bound : ℕ) (name : String)
      → NumberOf env name bound
      → IsBlaming (optional_parsed env bound name)
  unfolding optional_parsed read_number not_valid
  optional_parsed-IsBlaming bound name wanted =
      read_optional-IsBlaming name (read_number env bound name) (λ s present.
        elim (Result-cases (parse_uint bound s)) [
          | inl (n, e) ↦ rw e (ok-IsBlaming n)
          | inr (fault, e) ↦
              rw e
                (err-IsBlaming _ (malformed name _ s present (number bound fault name s wanted e)))
        ])

  optional_bool-IsBlaming : IsBlaming (optional_bool env "NOCAP_CRYPT_PIN_TO_SUBMISSION_THREAD")
  unfolding optional_bool read_bool
  optional_bool-IsBlaming = read_optional-IsBlaming _ (read_bool env _) (λ s present.
      elim (Bool-cases (is_yes (to_ascii_lowercase s))) [
        | inl positive ↦ rw positive (ok-IsBlaming true)
        | inr other ↦ rw other (elim (Bool-cases (is_no (to_ascii_lowercase s))) [
          | inl negative ↦ rw negative (ok-IsBlaming false)
          | inr neither ↦ rw neither (
              err-IsBlaming _
                (malformed _ _ s present (flag s (not-Yes _ other) (not-No _ neither))))
        ])
      ])

  optional_key_format-IsBlaming : IsBlaming (optional_key_format env)
  unfolding optional_key_format read_key_format not_valid
  optional_key_format-IsBlaming =
      bind-IsBlaming _ _
        (read_optional-IsBlaming "NOCAP_CRYPT_KEY_FORMAT" (read_key_format env) (λ s present.
          elim (Result-cases (env.key_format_from_str s)) [
            | inl (f, e) ↦ rw e (ok-IsBlaming f)
            | inr (fault, e) ↦
                rw e (err-IsBlaming _ (malformed _ _ s present (key_format fault s e)))
          ]))
        (λ format. ok-IsBlaming _)

  optional_cipher-IsBlaming : IsBlaming (optional_cipher env)
  unfolding optional_cipher read_cipher not_valid
  optional_cipher-IsBlaming =
      bind-IsBlaming _ _
        (read_optional-IsBlaming "NOCAP_CRYPT_CIPHER" (read_cipher env) (λ s present.
          elim (Result-cases (env.cipher_from_str s)) [
            | inl (c, e) ↦ rw e (ok-IsBlaming c)
            | inr (fault, e) ↦ rw e (err-IsBlaming _ (malformed _ _ s present (cipher fault s e)))
          ]))
        (λ c. ok-IsBlaming _)

  encrypt_args_from_env-IsBlaming : IsEncrypt env → IsBlaming (encrypt_args_from_env env)
  unfolding encrypt_args_from_env
  encrypt_args_from_env-IsBlaming op =
      bind-IsBlaming _ _ (require-IsBlaming _ needs_input) (λ input.
        bind-IsBlaming _ _ (require-IsBlaming _ needs_output) (λ output.
          bind-IsBlaming _ _ (require-IsBlaming _ needs_key_file) (λ key_file.
            bind-IsBlaming _ _ optional_key_format-IsBlaming (λ format.
              bind-IsBlaming _ _ optional_cipher-IsBlaming (λ c.
                bind-IsBlaming _ _ (optional_parsed-IsBlaming _ _ u16_key_size) (λ key_size.
                  bind-IsBlaming _ _ (optional_parsed-IsBlaming _ _ (u64_align_block op)) (λ block.
                    bind-IsBlaming _ _ (optional_parsed-IsBlaming _ _ (u64_align_extra op))
                      (λ extra.
                        bind-IsBlaming _ _ (optional_parsed-IsBlaming _ _ usize_workers) (λ workers.
                          bind-IsBlaming _ _ (optional_parsed-IsBlaming _ _ u64_threshold) (λ small.
                            bind-IsBlaming _ _ optional_bool-IsBlaming
                              (λ pin. ok-IsBlaming _)))))))))))

  decrypt_args_from_env-IsBlaming : IsBlaming (decrypt_args_from_env env)
  unfolding decrypt_args_from_env
  decrypt_args_from_env-IsBlaming = bind-IsBlaming _ _ (require-IsBlaming _ needs_input) (λ input.
      bind-IsBlaming _ _ (require-IsBlaming _ needs_output) (λ output.
        bind-IsBlaming _ _ (require-IsBlaming _ needs_key_file) (λ key_file.
          bind-IsBlaming _ _ optional_key_format-IsBlaming (λ format.
            bind-IsBlaming _ _ optional_cipher-IsBlaming (λ c.
              bind-IsBlaming _ _ (optional_parsed-IsBlaming _ _ u16_key_size) (λ key_size.
                bind-IsBlaming _ _ (optional_parsed-IsBlaming _ _ usize_workers) (λ workers.
                  bind-IsBlaming _ _ (optional_parsed-IsBlaming _ _ u64_threshold) (λ small.
                    bind-IsBlaming _ _ optional_bool-IsBlaming (λ pin. ok-IsBlaming _)))))))))

  resolve_operation-IsBlaming :
      (s : List ℕ)
      → optional env "NOCAP_CRYPT_OPERATION" ≡ some s
      → IsBlaming (resolve_operation env s)
  unfolding resolve_operation
  resolve_operation-IsBlaming s present = elim (Bool-cases (bytes_eq s (codes "encrypt"))) [
    | inl is_encrypt ↦ rw is_encrypt (
        bind-IsBlaming _ _
          (encrypt_args_from_env-IsBlaming
            (present ∙ ap some ((bytes_eq_iff s (codes "encrypt")).0 is_encrypt)))
          (λ args. ok-IsBlaming _))
    | inr no_encrypt ↦ rw no_encrypt (elim (Bool-cases (bytes_eq s (codes "decrypt"))) [
      | inl is_decrypt ↦
          rw is_decrypt
            (bind-IsBlaming _ _ decrypt_args_from_env-IsBlaming (λ args. ok-IsBlaming _))
      | inr no_decrypt ↦ rw no_decrypt (
          err-IsBlaming _ (
            malformed _ _ s present
              (operation s (λ e. not_equal _ no_encrypt e) (λ e. not_equal _ no_decrypt e))))
    ])
  ]
    where
      not_equal : (text : List ℕ) → bytes_eq s text ≡ false → s ≢ text
      not_equal text differs e = let yes = (bytes_eq_iff s text).1 e in cc

  -- The message of an environment that is refused starts with the name of a variable at fault. Either
  -- it is one of the operation and the three paths, and is missing or empty. Or its text is malformed
  -- for that variable: no number up to the greatest `u16` for the key size, or to the greatest 64-bit
  -- number for the count of workers, the threshold and, if the operation is `encrypt`, the two of the
  -- alignment; none of "1", "true", "yes", "0", "false" and "no", in either case, for the pinning; no
  -- name that clap reads for the key format or the cipher; and neither of "encrypt" and "decrypt" for
  -- the operation.
  pub resolve_from_env-Blames :
      (message : String) → resolve_from_env env ≡ err message → Blames env message
  unfolding resolve_from_env require
  resolve_from_env-Blames = elim (Option-cases (optional env "NOCAP_CRYPT_OPERATION")) [
    | inl absent ↦ rw absent (
        err-IsBlaming _ (
          missing "NOCAP_CRYPT_OPERATION"
            " is required (and must be non-empty) for standalone `--ci` invocation" needs_operation
            absent))
    | inr (s, present) ↦ rw present (resolve_operation-IsBlaming s present)
  ]
