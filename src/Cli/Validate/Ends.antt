-- ===== src/Cli/Validate/Ends.antt =====
-- How `validate` may end.
use nocap_crypt.Base.{
  ℕ, ◌-◌, ◌*◌, ◌/◌, ◌%◌, ◌≤◌, ◌<◌, ◌≡◌, refl, sym, ap, ◌∙◌, ◌⊎◌, inl, inr, min, Bool, true, false,
  Option, none, some, List, length, take, length-take, ◌==◌, String, Bool-cases, Option-cases,
  arith,
}
use nocap_crypt.Base.Result.{Result, ok, err, Result-cases, failed, panicked}
use nocap_crypt.Core.CipherSpec.{CipherSpec, as_str}
use nocap_crypt.Core.CipherSpec.Laws.{IsSupported}
use nocap_crypt.Core.Iv.{sector_size}
use nocap_crypt.Core.Primitives.{Primitives, IsLawful}
use nocap_crypt.Core.Engine.{SectorEngine, new, decrypt_range}
use nocap_crypt.Core.Engine.Laws.Keyed.{new-no_panic}
use nocap_crypt.Core.Engine.Laws.Ranges.{ranges_panic}
use nocap_crypt.Blockio.SectorIo.{Os, IsPosix, SectorFile}
use nocap_crypt.Blockio.SectorIo.Exact.{whole, short, failed_call, read_at_exact-ReadExact}
use nocap_crypt.Blockio.Open.{open_read}
use nocap_crypt.Luks.Structural.{
  structural_passes, validate_plain_structural, validate_plain_structural-passes,
}
use nocap_crypt.Keymgmt.Format.{Decoders}
use nocap_crypt.Cli.ExitCode.{
  ExitCode, success, io, key_validation, luks_compat, unsupported_cipher,
}
use nocap_crypt.Cli.KeyLoad.{load_key_file, resolve_cipher_spec, resolve_cipher_spec-IsSupported}
use nocap_crypt.Cli.Console.{
  Console, Ran, end, fail, fails, say, tell, IsLoud, tell-IsLoud, tell-exit,
}
use nocap_crypt.Cli.Validate.{
  ValidateArgs, Answers, detect_fs_magic, magic_report, check_head, check_key, after_structural,
  after_stat, said, run_validate,
}

module _ (c : Console) (p : Primitives) (os : Os) (d : Decoders) where
  -- A command that does not panic, reports an error exactly if it fails, and succeeds only if `Q`.
  abbrev pub Ends : Type 0 → Option (Ran c) → Type 0
  Ends Q o = (r : Ran c) × (o ≡ some r) × IsLoud c r × (r.1 ≡ success → Q)

  -- The first sectors of the input are those of a file system under the key.
  pub data Recognised (sys : Answers) (engine : SectorEngine) (head_sectors : ℕ) : Type 0 where
    recognised :
        (sf : SectorFile) (plain : List ℕ) (fs : String)
        → open_read sys.opens ≡ ok sf
        → head_sectors * sector_size ≤ length sf.file
        → decrypt_range p engine 0 (take (head_sectors * sector_size) sf.file) ≡ some plain
        → detect_fs_magic plain ≡ some fs
        → Recognised sys engine head_sectors

  failed-Ends :
      {Q : Type 0} (code : ExitCode) (text : String)
      → fails code ≡ true
      → Ends Q (some (fail c code text))
  failed-Ends code text bad =
      (fail c code text, refl, sym bad, λ e. absurd (differ (sym bad ∙ ap fails e)))
    where
      differ : ◌≡◌ {A = Bool} true false → ⊥
      differ e = cc

  magic_report-Ends :
      (found : Option String)
      → Ends ((fs : String) × (found ≡ some fs)) (some (magic_report c p os d found))
  unfolding magic_report
  magic_report-Ends (some fs) = (_, refl, refl, λ e. (fs, refl))
  magic_report-Ends none = failed-Ends luks_compat _ refl

  module _ (lawful : IsLawful p) (posix : IsPosix os) where
    check_head-Ends :
        (sys : Answers) (engine : SectorEngine) (head_sectors : ℕ)
        → head_sectors ≤ 8
        → Ends (Recognised sys engine head_sectors) (check_head c p os d sys engine head_sectors)
    unfolding check_head
    check_head-Ends sys engine n small = elim (Result-cases (open_read sys.opens)) [
      | inr (e, closed) ↦ rw (check_head, closed) (failed-Ends io _ refl)
      | inl (sf, opened) ↦
          elim (read_at_exact-ReadExact os posix sf 0 (n * sector_size) (omega arith)) [
            | short r _ ↦ rw (check_head, opened, r) (failed-Ends io _ refl)
            | failed_call e r _ ↦ rw (check_head, opened, r) (failed-Ends io _ refl)
            | whole r long ↦ rw (check_head, opened, r) (decrypted sys engine n sf opened long)
          ]
    ]
      where
        decrypted :
            (sys : Answers) (engine : SectorEngine) (n : ℕ) (sf : SectorFile)
            → open_read sys.opens ≡ ok sf
            → n * sector_size ≤ length sf.file - 0
            → Ends
                (Recognised sys engine n)
                (elim (decrypt_range p engine 0 (take (n * sector_size) sf.file)) [
                  | none ↦ none
                  | some plain ↦ some (magic_report c p os d (detect_fs_magic plain))
                ])
        decrypted sys engine n sf opened long =
            let size : length (take (n * sector_size) sf.file) ≡ n * sector_size =
              omega (arith, length-take (n * sector_size) sf.file) in
            elim (Option-cases (decrypt_range p engine 0 (take (n * sector_size) sf.file))) [
              | inl panic ↦ absurd (
                  (ranges_panic p lawful engine 0 (take (n * sector_size) sf.file)).1.0 panic
                    (omega (arith, size)))
              | inr (plain, plainly) ↦
                  let (r, e, loud, found) = magic_report-Ends (detect_fs_magic plain) in
                  rw plainly (
                    r,
                    e,
                    loud,
                    λ s.
                        recognised sf plain (found s).0 opened (omega (arith, long)) plainly
                          (found s).1,
                  )
            ]

    -- What a key file that was given has to show.
    pub data Keyed (args : ValidateArgs) (sys : Answers) (spec : CipherSpec) (n : ℕ) : Type 0 where
      too_short :
          (key : List ℕ) (engine : SectorEngine)
          → load_key_file d sys.key_read args.key_format ≡ ok key
          → new p spec key ≡ ok engine
          → n < sector_size
          → Keyed args sys spec n
      opens_with :
          (key : List ℕ) (engine : SectorEngine)
          → load_key_file d sys.key_read args.key_format ≡ ok key
          → new p spec key ≡ ok engine
          → Recognised sys engine (min (n / sector_size) 8)
          → Keyed args sys spec n

    check_key-Ends :
        (args : ValidateArgs) (sys : Answers) (spec : CipherSpec) (n : ℕ)
        → IsSupported spec
        → Ends (Keyed args sys spec n) (check_key c p os d args sys spec n)
    unfolding check_key
    check_key-Ends args sys spec n sup =
        elim (Result-cases (load_key_file d sys.key_read args.key_format)) [
          | inr (e, unread) ↦ rw (check_key, unread) (failed-Ends io _ refl)
          | inl (key, loaded) ↦ elim (Result-cases (new p spec key)) [
            | inr (panicked, bad) ↦ absurd (new-no_panic p spec key sup bad)
            | inr (failed e, bad) ↦ rw (check_key, loaded, bad) (failed-Ends key_validation _ refl)
            | inl (engine, built) ↦ elim (Bool-cases (min (n / sector_size) 8 == 0)) [
              | inl none_ ↦
                  rw (check_key, loaded, built, none_)
                    (_, refl, refl, λ e. too_short key engine loaded built (ground arith))
              | inr some_ ↦
                  let (r, e, loud, q) =
                    check_head-Ends sys engine (min (n / sector_size) 8) (omega arith) in
                  rw (check_key, loaded, built, some_)
                    (r, e, loud, λ s. opens_with key engine loaded built (q s))
            ]
          ]
        ]

    -- What `validate` may accept: whole sectors, and the key, if there is one.
    pub data Accepted (args : ValidateArgs) (sys : Answers) : Type 0 where
      accepted :
          (n : ℕ) (spec : CipherSpec)
          → sys.stat ≡ ok n
          → resolve_cipher_spec args.cipher args.key_size ≡ ok spec
          → n % sector_size ≡ 0
          → (args.key_file ≡ none) ⊎ Keyed args sys spec n
          → Accepted args sys

    after_structural-Ends :
        (args : ValidateArgs) (sys : Answers) (spec : CipherSpec) (n : ℕ)
        → sys.stat ≡ ok n
        → resolve_cipher_spec args.cipher args.key_size ≡ ok spec
        → Ends
            (Accepted args sys)
            (after_structural c p os d args sys spec n (validate_plain_structural n (as_str spec)))
    unfolding after_structural
    after_structural-Ends args sys spec n stat good =
        elim (Bool-cases (structural_passes (validate_plain_structural n (as_str spec)))) [
          | inr bad ↦ rw (after_structural, bad) (failed-Ends luks_compat _ refl)
          | inl passes ↦
              let sectors : n % sector_size ≡ 0 =
                ((validate_plain_structural-passes n (as_str spec)).0 passes).0 in
              rw (after_structural, passes) (with_key sectors args.key_file refl)
        ]
      where
        with_key :
            n % sector_size ≡ 0
            → (key_file : Option String) → args.key_file ≡ key_file
            → Ends (Accepted args sys) (elim key_file [
              | none ↦ some (end c success)
              | some path ↦ check_key c p os d args sys spec n
            ])
        with_key sectors none no_key =
            (_, refl, refl, λ e. accepted n spec stat good sectors (inl no_key))
        with_key sectors (some path) keyed =
            let (r, e, loud, q) =
              check_key-Ends args sys spec n
                (resolve_cipher_spec-IsSupported args.cipher args.key_size good).0 in
            (r, e, loud, λ s. accepted n spec stat good sectors (inr (q s)))

    said-Ends :
        {Q : Type 0} (before : Ran c → Ran c) (o : Option (Ran c))
        → ((r : Ran c) → IsLoud c r → IsLoud c (before r))
        → ((r : Ran c) → (before r).1 ≡ r.1)
        → Ends Q o
        → Ends Q (said c p os d before o)
    unfolding said
    said-Ends before o keeps same (r, e, loud, q) =
        rw (said, e) (before r, refl, keeps r loud, λ s. q (sym (same r) ∙ s))

    after_stat-Ends :
        (args : ValidateArgs) (sys : Answers) (stat : Result ℕ ℕ)
        → sys.stat ≡ stat
        → Ends (Accepted args sys) (after_stat c p os d args sys stat)
    unfolding after_stat
    after_stat-Ends args sys (err e) stat = failed-Ends io _ refl
    after_stat-Ends args sys (ok n) stat =
        elim (Result-cases (resolve_cipher_spec args.cipher args.key_size)) [
          | inr (e, bad) ↦ rw (after_stat, bad) (failed-Ends unsupported_cipher _ refl)
          | inl (spec, good) ↦
              rw (after_stat, good)
                (said-Ends (say c _) _ (λ r loud. loud) (λ r. refl)
                  (after_structural-Ends args sys spec n stat good))
        ]

    -- With lawful primitives and a POSIX system, whatever the options and the answers, `validate` does
    -- not panic and reports an error exactly if its exit code is not success. It succeeds only on whole
    -- sectors and a spec that resolves; and where a key file is given, only if the key fits the spec
    -- and the file is shorter than a sector, or its first sectors decrypt to a known magic.
    pub run_validate-Ends :
        (args : ValidateArgs) (sys : Answers)
        → Ends (Accepted args sys) (run_validate c p os d args sys)
    unfolding run_validate
    run_validate-Ends args sys =
        said-Ends (tell c _) _ (tell-IsLoud c _) (tell-exit c _)
          (after_stat-Ends args sys sys.stat refl)
