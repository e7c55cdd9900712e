-- ===== src/Cli/Image/Reports/Tells.antt =====
-- When the image commands report an error.
use nocap_crypt.Base.{
  ℕ, refl, Bool, true, false, String, ltb, Bool-cases, Option-cases, inl, inr, List,
}
use nocap_crypt.Core.CipherSpec.{CipherSpec}
use nocap_crypt.Core.Primitives.{Primitives}
use nocap_crypt.Core.Engine.{new}
use nocap_crypt.Keymgmt.Format.{Decoders}
use nocap_crypt.Keymgmt.Validate.{validate_key}
use nocap_crypt.Worker.Dispatch.{chunk_ranges}
use nocap_crypt.Cli.KeyLoad.{load_key_file, resolve_cipher_spec}
use nocap_crypt.Cli.Console.{Console}
use nocap_crypt.Cli.Report.{
  Tells, bind-Tells, then-Tells, narrate-Tells, or_bail-Tells, or_panic-Tells, or_panicked-Tells,
  if_some-Tells,
}
use nocap_crypt.Cli.Image.{aligned_output_size}
use nocap_crypt.Cli.Image.Reports.{
  FileArgs, TransferJob, Surroundings, report_spec_and_key, narrate_cipher_intro, report_engine,
  stat_input_len, resolve_and_report_concurrency, report_files, narrate_sample_iv_if_applicable,
  transfer_and_report_timing, report_ciphertext, report_compat, report_key, report_output_size,
  run_encrypt, run_decrypt,
}

module _ (c : Console) (p : Primitives) (d : Decoders) where
  open c use {numbers, narrates}
  open numbers use {floats}
  open floats use {F}

  report_spec_and_key-Tells :
      (args : FileArgs) (sys : Surroundings F) → Tells (report_spec_and_key c p d args sys)
  unfolding report_spec_and_key
  report_spec_and_key-Tells args sys =
      bind-Tells _ _ (or_bail-Tells F (resolve_cipher_spec args.cipher args.key_size) _ _ refl)
        (λ spec.
          bind-Tells _ _ (or_bail-Tells F (load_key_file d sys.key_read args.key_format) _ _ refl)
            (λ key. then-Tells _ _ (or_bail-Tells F (validate_key floats spec key) _ _ refl) refl))

  narrate_cipher_intro-Tells : (spec : CipherSpec) → Tells (narrate_cipher_intro c p d spec)
  unfolding narrate_cipher_intro
  narrate_cipher_intro-Tells spec = then-Tells _ _ (narrate-Tells F narrates _) (
      then-Tells _ _ (narrate-Tells F narrates _) (
        then-Tells _ _ (narrate-Tells F narrates _)
          (then-Tells _ _ (narrate-Tells F narrates _) refl)))

  report_files-Tells :
      (args : FileArgs) (sys : Surroundings F) → Tells (report_files c p d args sys)
  unfolding report_files
  report_files-Tells args sys =
      then-Tells _ _ (or_bail-Tells F sys.input_opened _ _ refl)
        (or_bail-Tells F sys.output_created _ _ refl)

  sample_iv-Tells : (n : ℕ) → Tells (narrate_sample_iv_if_applicable c p d n)
  unfolding narrate_sample_iv_if_applicable
  sample_iv-Tells n = elim (Bool-cases (ltb 0 n)) [
    | inl some_input ↦ rw (narrate_sample_iv_if_applicable, some_input) (narrate-Tells F narrates _)
    | inr no_input ↦ rw (narrate_sample_iv_if_applicable, no_input) refl
  ]

  transfer-Tells :
      (sys : Surroundings F) (job : TransferJob) (phase : String)
      → Tells (transfer_and_report_timing c p d sys job phase)
  unfolding transfer_and_report_timing
  transfer-Tells sys job phase = then-Tells _ _ (or_bail-Tells F (sys.dispatch job) _ _ refl) refl

  concurrency-Tells :
      (args : FileArgs) (sys : Surroundings F) (n : ℕ)
      → Tells (resolve_and_report_concurrency c p d args sys n)
  unfolding resolve_and_report_concurrency
  concurrency-Tells args sys n = then-Tells _ _ refl refl

  report_ciphertext-Tells : (sys : Surroundings F) (n : ℕ) → Tells (report_ciphertext c p d sys n)
  unfolding report_ciphertext
  report_ciphertext-Tells sys n = elim (Bool-cases (ltb 0 n)) [
    | inl some_input ↦
        rw (report_ciphertext, some_input)
          (elim (Option-cases sys.output_read) [
            | inl unread ↦ rw unread refl
            | inr (ciphertext, e) ↦ rw e (then-Tells _ _ refl (narrate-Tells F narrates _))
          ])
    | inr no_input ↦ rw (report_ciphertext, no_input) refl
  ]

  report_compat-Tells :
      (wanted : Bool) (sys : Surroundings F) (spec : CipherSpec) (key : List ℕ)
      → Tells (report_compat c p d wanted sys spec key)
  unfolding report_compat
  report_compat-Tells true sys spec key = then-Tells _ _ refl refl
  report_compat-Tells false sys spec key = refl

  report_key-Tells : (sys : Surroundings F) (key : List ℕ) → Tells (report_key c p d sys key)
  unfolding report_key
  report_key-Tells sys key = then-Tells _ _ (narrate-Tells F narrates _) (
      then-Tells _ _ (narrate-Tells F narrates _) (
        then-Tells _ _ (if_some-Tells sys.corporate_joke _ (λ joke. then-Tells _ _ refl refl))
          refl))

  report_output_size-Tells :
      (args : FileArgs) (n block extra : ℕ) → Tells (report_output_size c p d args n block extra)
  unfolding report_output_size
  report_output_size-Tells args n block extra =
      bind-Tells _ _ (or_bail-Tells F (aligned_output_size n block extra) _ _ refl)
        (λ size. then-Tells _ _ refl (then-Tells _ _ (narrate-Tells F narrates _) refl))

  run_decrypt-Tells : (args : FileArgs) (sys : Surroundings F) → Tells (run_decrypt c p d args sys)
  unfolding run_decrypt report_engine stat_input_len
  run_decrypt-Tells args sys = then-Tells _ _ (if_some-Tells sys.boot_banner _ (λ text. refl)) (
      bind-Tells _ _ (report_spec_and_key-Tells args sys) (λ k.
        then-Tells _ _ (narrate_cipher_intro-Tells k.0) (
          bind-Tells _ _ (or_panic-Tells F (new p k.0 k.1) _ _ refl) (λ engine.
            bind-Tells _ _ (or_bail-Tells F sys.stat _ _ refl) (λ n.
              bind-Tells _ _ (concurrency-Tells args sys n) (λ concurrency.
                then-Tells _ _ (report_files-Tells args sys) (
                  then-Tells _ _ (sample_iv-Tells n) (
                    bind-Tells _ _
                      (or_panicked-Tells F (chunk_ranges n sys.system_info.chunk_sectors))
                      (λ ranges. then-Tells _ _ (transfer-Tells sys _ _) refl)))))))))

  run_encrypt-Tells :
      (args : FileArgs) (block extra : ℕ) (check : Bool) (sys : Surroundings F)
      → Tells (run_encrypt c p d args block extra check sys)
  unfolding run_encrypt report_engine stat_input_len
  run_encrypt-Tells args block extra check sys =
      then-Tells _ _ (if_some-Tells sys.boot_banner _ (λ text. refl)) (
        bind-Tells _ _ (report_spec_and_key-Tells args sys) (λ k.
          then-Tells _ _ (narrate_cipher_intro-Tells k.0) (
            then-Tells _ _ (report_key-Tells sys k.1) (
              bind-Tells _ _ (or_panic-Tells F (new p k.0 k.1) _ _ refl) (λ engine.
                bind-Tells _ _ (or_bail-Tells F sys.stat _ _ refl) (λ n.
                  bind-Tells _ _ (report_output_size-Tells args n block extra) (λ size.
                    bind-Tells _ _ (concurrency-Tells args sys n) (λ concurrency.
                      then-Tells _ _ (report_files-Tells args sys) (
                        then-Tells _ _ (sample_iv-Tells n) (
                          bind-Tells _ _
                            (or_panicked-Tells F (chunk_ranges size sys.system_info.chunk_sectors))
                            (λ ranges. then-Tells _ _ (transfer-Tells sys _ _) (
                              then-Tells _ _ (report_ciphertext-Tells sys n)
                                (report_compat-Tells check sys k.0 k.1)))))))))))))

  -- Both image commands report an error exactly if they end early with the exit code of a failure; where
  -- they reach their end, no error was reported.
  pub run_image-Tells :
      (args : FileArgs) (block extra : ℕ) (check : Bool) (sys : Surroundings F)
      → Tells (run_encrypt c p d args block extra check sys) × Tells (run_decrypt c p d args sys)
  run_image-Tells args block extra check sys =
      (run_encrypt-Tells args block extra check sys, run_decrypt-Tells args sys)
