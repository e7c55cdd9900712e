-- ===== src/Cli/Keys/Ends.antt =====
-- How `keygen` and `keycheck` may end.
use nocap_crypt.Base.{
  ℕ, ◌≡◌, refl, sym, ap, ◌∙◌, subst, inl, inr, Bool, true, false, Option, some, List, String,
  Bool-cases, Option-cases,
}
use nocap_crypt.Base.Result.{Result, ok, err, Result-cases}
use nocap_crypt.Core.CipherSpec.{CipherSpec}
use nocap_crypt.Core.Primitives.{Primitives}
use nocap_crypt.Keymgmt.Format.{Decoders}
use nocap_crypt.Keymgmt.KeyFile.{
  SysRng, Entry, Fs, KeyFileWriteError, already_exists, generate_key, write_key_file, exists,
  opened_mode, Written, refused, unopened, cut_short, stored, write_key_file-Written,
  ModeAfter-opened_mode,
}
use nocap_crypt.Keymgmt.Validate.{KeyValidationReport, validate_key}
use nocap_crypt.Cli.ExitCode.{ExitCode, success, io, unsupported_cipher}
use nocap_crypt.Cli.KeyLoad.{load_key_file, resolve_cipher_spec}
use nocap_crypt.Cli.Console.{Console, Ran, fail, fails, IsLoud, tell-IsLoud}
use nocap_crypt.Cli.Keys.{
  KeygenArgs, KeycheckArgs, keygen_report, keygen_written, run_keygen, keycheck_summary,
  keycheck_report, run_keycheck,
}

module _ (c : Console) (p : Primitives) where
  open c use {numbers}
  open numbers use {floats, fixed}

  keygen_report-IsLoud :
      (args : KeygenArgs) (spec : CipherSpec) (key : List ℕ)
      → IsLoud c (keygen_report c p args spec key)
  unfolding keygen_report
  keygen_report-IsLoud args spec key =
      tell-IsLoud c _ _
        (elim (Bool-cases c.narrates) [ inl on ↦ rw on refl | inr off ↦ rw off refl ])

  keycheck_report-IsLoud :
      (args : KeycheckArgs) (spec : CipherSpec) (report : KeyValidationReport floats) (key : List ℕ)
      → IsLoud c (keycheck_report c p args spec report key)
  unfolding keycheck_report keycheck_summary
  keycheck_report-IsLoud args spec report key = tell-IsLoud c _ _ (
      tell-IsLoud c _ _
        (elim (Bool-cases args.reveal) [ inl shown ↦ rw shown refl | inr hidden ↦ rw hidden refl ]))

  -- How `keygen` may end: it reports an error exactly if its exit code is not success; where it
  -- succeeds, a key for the spec is in the file; a file that was there stays as it is without force.
  pub record Generated (rng : SysRng) (fs : Fs) (path : Option Entry) (args : KeygenArgs)
      (r : Ran c × Option Entry) : Type 0 where
    pub loud : IsLoud c r.0
    pub stored :
        r.0.1 ≡ success
        → (spec : CipherSpec) × (key : List ℕ) × (resolve_cipher_spec args.cipher args.key_size
            ≡ ok spec)
          × (generate_key rng spec ≡ some key)
          × (r.1 ≡ some (record { content = key; mode = opened_mode fs path }))
    pub kept : exists path ≡ true → args.force ≡ false → r.1 ≡ path

  module _ (rng : SysRng) (fs : Fs) (path : Option Entry) (args : KeygenArgs) where
    -- A command that fails and leaves the path alone.
    refused_Generated :
        (code : ExitCode) (text : String)
        → fails code ≡ true
        → Generated rng fs path args (fail c code text, path)
    refused_Generated code text bad = record {
      loud = sym bad;
      stored = λ e. absurd (true_not_false (sym bad ∙ ap fails e));
      kept = λ _ _. refl;
    }
      where
        true_not_false : ◌≡◌ {A = Bool} true false → ⊥
        true_not_false e = cc

    keygen_report-success :
        (spec : CipherSpec) (key : List ℕ) → (keygen_report c p args spec key).1 ≡ success
    unfolding keygen_report
    keygen_report-success spec key = elim (Bool-cases c.narrates) [
      | inl on ↦ rw on refl
      | inr off ↦ rw off refl
    ]

    unwritten :
        (spec : CipherSpec) (key : List ℕ) (w : Result KeyFileWriteError (Unit {0}) × Option Entry)
        (e : KeyFileWriteError)
        → w.0 ≡ err e
        → (exists path ≡ true → args.force ≡ false → w.1 ≡ path)
        → Generated rng fs path args (keygen_written c p args spec key w)
    unfolding keygen_written
    unwritten spec key w e failed kept =
        rw (keygen_written, failed)
          (record { loud = refl; stored = λ s. absurd (not_success s); kept = kept })
      where
        not_success : ◌≡◌ {A = ExitCode} io success → ⊥
        not_success s = cc

    keygen_written-Generated :
        (spec : CipherSpec) (key : List ℕ) (w : Result KeyFileWriteError (Unit {0}) × Option Entry)
        → resolve_cipher_spec args.cipher args.key_size ≡ ok spec
        → generate_key rng spec ≡ some key
        → Written fs path key args.force w
        → (exists path ≡ true → args.force ≡ false → w.1 ≡ path)
        → Generated rng fs path args (keygen_written c p args spec key w)
    unfolding keygen_written
    keygen_written-Generated spec key w good made (refused e was no_force) kept =
        unwritten spec key w already_exists (ap (λ r. r.0) e) kept
    keygen_written-Generated spec key w good made (unopened n e closed) kept =
        unwritten spec key w (KeyFileWriteError.io n) (ap (λ r. r.0) e) kept
    keygen_written-Generated spec key w good made (cut_short n mode partly e broke after may) kept =
        unwritten spec key w (KeyFileWriteError.io n) (ap (λ r. r.0) e) kept
    keygen_written-Generated spec key w good made (stored mode e after may) kept =
        let done : w.0 ≡ ok tt = ap (λ r. r.0) e in
        rw (keygen_written, done)
          (record {
            loud = keygen_report-IsLoud args spec key;
            stored = λ _. (
              spec,
              key,
              good,
              made,
              rw (sym (ModeAfter-opened_mode fs path after)) (ap (λ r. r.1) e),
            );
            kept = kept;
          })

    -- With whatever random bytes and answers of the system, if `keygen` does not panic for want of
    -- random bytes: it reports an error exactly if its exit code is not success; where it succeeds,
    -- the file holds a key that was generated for the spec of the options; and without `--force`
    -- a file that was there stays as it is.
    pub run_keygen-Generated :
        {r : Ran c × Option Entry}
        → run_keygen c p rng fs path args ≡ some r
        → Generated rng fs path args r
    unfolding run_keygen write_key_file
    run_keygen-Generated {r} e =
        elim (Result-cases (resolve_cipher_spec args.cipher args.key_size)) [
          | inr (x, bad) ↦
              subst (Generated rng fs path args) (some_injective (rw (run_keygen, bad) at e))
                (refused_Generated unsupported_cipher _ refl)
          | inl (spec, good) ↦ elim (Option-cases (generate_key rng spec)) [
            | inl dry ↦ absurd (cc (rw (run_keygen, good, dry) at e))
            | inr (key, made) ↦
                subst (Generated rng fs path args)
                  (some_injective (rw (run_keygen, good, made) at e))
                  (keygen_written-Generated spec key (write_key_file fs path key args.force) good
                    made (write_key_file-Written fs path key args.force) (unforced key))
          ]
        ]
      where
        some_injective :
            {a b : Ran c × Option Entry}
            → ◌≡◌ {A = Option (Ran c × Option Entry)} (some a) (some b)
            → a ≡ b
        some_injective h = cc

        unforced :
            (key : List ℕ)
            → exists path ≡ true
            → args.force ≡ false
            → (write_key_file fs path key args.force).1 ≡ path
        unforced key was no_force = rw (write_key_file, was, no_force) refl

  -- `keycheck` reports an error exactly if its exit code is not success.
  pub run_keycheck-IsLoud :
      (d : Decoders) (read : Result ℕ (List ℕ)) (args : KeycheckArgs)
      → IsLoud c (run_keycheck c p d read args)
  unfolding run_keycheck
  run_keycheck-IsLoud d read args =
      elim (Result-cases (resolve_cipher_spec args.cipher args.key_size)) [
        | inr (x, bad) ↦ rw (run_keycheck, bad) refl
        | inl (spec, good) ↦ elim (Result-cases (load_key_file d read args.key_format)) [
          | inr (x, bad) ↦ rw (run_keycheck, good, bad) refl
          | inl (key, loaded) ↦ elim (Result-cases (validate_key floats spec key)) [
            | inr (x, bad) ↦ rw (run_keycheck, good, loaded, bad) refl
            | inl (report, valid) ↦
                rw (run_keycheck, good, loaded, valid) (keycheck_report-IsLoud args spec report key)
          ]
        ]
      ]
