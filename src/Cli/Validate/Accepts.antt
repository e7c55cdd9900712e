-- ===== src/Cli/Validate/Accepts.antt =====
-- `validate` on an image that was encrypted under the same key.
use nocap_crypt.Base.{
  ℕ, ◌+◌, ◌-◌, ◌*◌, ◌/◌, ◌%◌, ◌≤◌, ◌≡◌, refl, sym, ap, ◌∙◌, ◌⊎◌, inl, inr, min, true, Option, none,
  some, List, ◌++◌, length, take, drop, length-take, length-drop, take-append-drop,
  take-append_self, length-append, ◌==◌, String, Bool-cases, arith,
}
use nocap_crypt.Base.Bytes.{take-IsBytes, drop-IsBytes}
use nocap_crypt.Base.Result.{Result, ok}
use nocap_crypt.Core.CipherSpec.{CipherMode, xts_plain64, cbc_essiv_sha256, CipherSpec, as_str}
use nocap_crypt.Core.Iv.{sector_size}
use nocap_crypt.Core.Primitives.{Primitives, IsLawful}
use nocap_crypt.Core.Engine.{SectorEngine, new, encrypt_range, decrypt_range}
use nocap_crypt.Core.Engine.Laws.Keyed.{IsKeyed}
use nocap_crypt.Core.Engine.Laws.Ranges.{IsWhole, encrypt_range-append, decrypt_range-encrypt_range}
use nocap_crypt.Blockio.SectorIo.{Os, IsPosix, IsReliable, SectorFile}
use nocap_crypt.Blockio.SectorIo.Exact.{whole, short, failed_call, read_at_exact-ReadExact}
use nocap_crypt.Blockio.SectorIo.Reliable.{not_FailedRead}
use nocap_crypt.Blockio.Open.{open_read}
use nocap_crypt.Luks.Structural.{
  structural_passes, validate_plain_structural, validate_plain_structural-passes,
}
use nocap_crypt.Keymgmt.Format.{Decoders}
use nocap_crypt.Cli.ExitCode.{success}
use nocap_crypt.Cli.KeyLoad.{load_key_file, resolve_cipher_spec}
use nocap_crypt.Cli.Console.{Console, Ran, tell, tell-exit, say, end}
use nocap_crypt.Cli.Validate.{
  ValidateArgs, Answers, detect_fs_magic, magic_report, check_head, check_key, after_structural,
  after_stat, said, run_validate,
}

-- The bytes of the image that `validate` decrypts.
abbrev pub head_len : List ℕ → ℕ
head_len image = min (length image / sector_size) 8 * sector_size

-- The image is at the input.
pub record Holds (sys : Answers) (cipher : List ℕ) : Type 0 where
  pub file : SectorFile
  pub opened : open_read sys.opens ≡ ok file
  pub content : file.file ≡ cipher

module _ (p : Primitives) (lawful : IsLawful p) (engine : SectorEngine)
    (keyed : IsKeyed engine) where
  -- Whole first sectors of the ciphertext decrypt to as many of the image.
  prefix_decrypts :
      (k : ℕ) (image cipher : List ℕ)
      → k % sector_size ≡ 0
      → k ≤ length image
      → IsWhole image
      → encrypt_range p engine 0 image ≡ some cipher
      → (decrypt_range p engine 0 (take k cipher) ≡ some (take k image)) × (k ≤ length cipher)
  prefix_decrypts k image cipher sectors le (whole_image, bytes) enc =
      let a = take k image in
      let b = drop k image in
      let len_a : length a ≡ k = omega (arith, length-take k image) in
      let len_b : length b ≡ length image - k = length-drop k image in
      let (x, ex, len_x, _, dx) =
        decrypt_range-encrypt_range p lawful engine keyed 0 a
          (omega (arith, len_a), take-IsBytes k image bytes) in
      let (y, ey, len_y, _, _) =
        decrypt_range-encrypt_range p lawful engine keyed (0 + length a / sector_size) b
          (omega (arith, len_b), drop-IsBytes k image bytes) in
      let joined : encrypt_range p engine 0 (a ++ b) ≡ some (x ++ y) =
        encrypt_range-append p lawful engine 0 a b (omega (arith, len_a)) (omega (arith, len_b)) ex
          ey in
      let same : cipher ≡ x ++ y = some_injective (
        sym enc ∙ ap (λ t. encrypt_range p engine 0 t) (sym (take-append-drop k image)) ∙ joined) in
      let head : take k cipher ≡ x = ap (take k) same ∙ take-append_self k x y (len_x ∙ len_a) in
      (
        ap (decrypt_range p engine 0) head ∙ dx,
        omega (arith, ap length same, length-append x y, len_x, len_a),
      )
    where
      some_injective : {s t : List ℕ} → ◌≡◌ {A = Option (List ℕ)} (some s) (some t) → s ≡ t
      some_injective e = cc

  module _ (c : Console) (os : Os) (d : Decoders) (posix : IsPosix os)
      (reliable : IsReliable os) where
    check_head-success :
        (sys : Answers) (n k : ℕ) (image cipher : List ℕ) (fs : String)
        → n ≤ 8
        → k ≡ n * sector_size
        → k ≤ length image
        → IsWhole image
        → encrypt_range p engine 0 image ≡ some cipher
        → Holds sys cipher
        → detect_fs_magic (take k image) ≡ some fs
        → (r : Ran c) × (check_head c p os d sys engine n ≡ some r) × (r.1 ≡ success)
    unfolding check_head magic_report
    check_head-success sys n k image cipher fs small size le w enc held found =
        let (plain, long) = prefix_decrypts k image cipher (omega arith) le w enc in
        elim (read_at_exact-ReadExact os posix held.file 0 (n * sector_size) (omega arith)) [
          | short r few ↦ absurd (omega (arith, long, size, ap length held.content))
          | failed_call e r bad ↦ absurd (not_FailedRead os reliable _ e bad)
          | whole r enough ↦
              let here : decrypt_range p engine 0 (take (n * sector_size) held.file.file)
                  ≡ some (take k image) =
                ap (λ t. decrypt_range p engine 0 (take (n * sector_size) t)) held.content
                ∙ ap (λ (m : ℕ). decrypt_range p engine 0 (take m cipher)) (sym size)
                ∙ plain in
              rw (check_head, held.opened, r, here, found, magic_report) (_, refl, refl)
        ]

    abbrev Passes : Option (Ran c) → Type 0
    Passes o = (r : Ran c) × (o ≡ some r) × (r.1 ≡ success)

    check_key-success :
        (args : ValidateArgs) (sys : Answers) (spec : CipherSpec) (key image cipher : List ℕ)
        (fs : String)
        → load_key_file d sys.key_read args.key_format ≡ ok key
        → new p spec key ≡ ok engine
        → IsWhole image
        → encrypt_range p engine 0 image ≡ some cipher
        → Holds sys cipher
        → detect_fs_magic (take (head_len image) image) ≡ some fs
        → Passes (check_key c p os d args sys spec (length image))
    unfolding check_key
    check_key-success args sys spec key image cipher fs loaded built w enc held found =
        elim (Bool-cases (min (length image / sector_size) 8 == 0)) [
          | inl none_ ↦ rw (check_key, loaded, built, none_) (_, refl, refl)
          | inr some_ ↦
              rw (check_key, loaded, built, some_)
                (check_head-success sys (min (length image / sector_size) 8) (head_len image) image
                  cipher fs (omega arith) refl (omega arith) w enc held found)
        ]

    said-success :
        (before : Ran c → Ran c) (o : Option (Ran c))
        → ((r : Ran c) → (before r).1 ≡ r.1)
        → Passes o
        → Passes (said c p os d before o)
    unfolding said
    said-success before o same (r, e, s) = rw (said, e) (before r, refl, same r ∙ s)

    structure-passes :
        (n : ℕ) (spec : CipherSpec)
        → n % sector_size ≡ 0
        → structural_passes (validate_plain_structural n (as_str spec)) ≡ true
    structure-passes n spec sectors =
        (validate_plain_structural-passes n (as_str spec)).1 (sectors, known spec.mode)
      where
        known :
            (mode : CipherMode)
            → (as_str (record spec { mode = mode }) ≡ "aes-xts-plain64")
              ⊎ (as_str (record spec { mode = mode }) ≡ "aes-cbc-essiv:sha256")
        known xts_plain64 = unfold as_str in inl refl
        known cbc_essiv_sha256 = unfold as_str in inr refl

    after_structural-success :
        (args : ValidateArgs) (sys : Answers) (spec : CipherSpec) (n : ℕ) (path : String)
        → n % sector_size ≡ 0
        → args.key_file ≡ some path
        → Passes (check_key c p os d args sys spec n)
        → Passes
            (after_structural c p os d args sys spec n (validate_plain_structural n (as_str spec)))
    unfolding after_structural
    after_structural-success args sys spec n path sectors given passed =
        rw (after_structural, structure-passes n spec sectors) (with_key args.key_file given)
      where
        with_key :
            (key_file : Option String)
            → key_file ≡ some path
            → Passes (elim key_file [
              | none ↦ some (end c success)
              | some path ↦ check_key c p os d args sys spec n
            ])
        with_key none e = absurd (cc)
        with_key (some other) e = passed

    after_stat-success :
        (args : ValidateArgs) (sys : Answers) (spec : CipherSpec) (n : ℕ) (stat : Result ℕ ℕ)
        → stat ≡ ok n
        → resolve_cipher_spec args.cipher args.key_size ≡ ok spec
        → Passes
            (after_structural c p os d args sys spec n (validate_plain_structural n (as_str spec)))
        → Passes (after_stat c p os d args sys stat)
    unfolding after_stat
    after_stat-success args sys spec n stat sized good passed =
        rw (sized, after_stat, good) (said-success (say c _) _ (λ r. refl) passed)

    -- With lawful primitives and a POSIX system whose calls do not fail: an image of whole sectors that was
    -- encrypted under a keyed engine from sector 0, and whose first sectors (eight, or all if there
    -- are fewer) have a known magic, is accepted with the key file that the engine was built from.
    pub run_validate-success :
        (args : ValidateArgs) (sys : Answers) (spec : CipherSpec) (key image cipher : List ℕ)
        (path fs : String)
        → resolve_cipher_spec args.cipher args.key_size ≡ ok spec
        → args.key_file ≡ some path
        → load_key_file d sys.key_read args.key_format ≡ ok key
        → new p spec key ≡ ok engine
        → IsWhole image
        → encrypt_range p engine 0 image ≡ some cipher
        → sys.stat ≡ ok (length image)
        → Holds sys cipher
        → detect_fs_magic (take (head_len image) image) ≡ some fs
        → (r : Ran c) × (run_validate c p os d args sys ≡ some r) × (r.1 ≡ success)
    unfolding run_validate
    run_validate-success args sys spec key image cipher path fs good keyed_ loaded built w enc stat
          held found =
        said-success (tell c _) _ (tell-exit c _) (
          after_stat-success args sys spec (length image) sys.stat stat good (
            after_structural-success args sys spec (length image) path w.0 keyed_
              (check_key-success args sys spec key image cipher fs loaded built w enc held found)))
