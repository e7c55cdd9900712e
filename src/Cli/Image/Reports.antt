-- ===== src/Cli/Image/Reports.antt =====
-- crates/nocap-crypt-cli/src/cmd/image.rs: `run_encrypt` and `run_decrypt` with every event that they
-- report. The transfer itself is in Output and in Worker/Dispatch.
pub mod Tells
mod Tests
use Prim.Native.String.{◌++◌ as ◌<>◌}
use nocap_crypt.Base.{
  ℕ, zero, suc, ◌*◌, Bool, true, false, Option, none, some, List, length, take, String, ltb,
  if◌then◌else◌,
}
use nocap_crypt.Base.Result.{Result, ok, err, map_err, Fault}
use nocap_crypt.Base.Text.{show_nat}
use nocap_crypt.Core.CipherSpec.{CipherSpec, as_str, bits}
use nocap_crypt.Core.Iv.{plain64_iv}
use nocap_crypt.Core.Primitives.{Primitives}
use nocap_crypt.Core.Engine.{SectorEngine, KeyError, new}
use nocap_crypt.Entropy.Scores.{shannon_entropy, is_uniform}
use nocap_crypt.Keymgmt.Format.{Decoders}
use nocap_crypt.Keymgmt.Represent.{fingerprint}
use nocap_crypt.Keymgmt.Validate.{validate_key}
use nocap_crypt.Worker.Concurrency.{Concurrency, synchronous, global_pool, fixed, resolve}
use nocap_crypt.Worker.DiskInfo.{DiskType, ssd, rotational, unknown}
use nocap_crypt.Worker.Cgroup.{DispatchInfo}
use nocap_crypt.Worker.Dispatch.{SectorRange, chunk_ranges}
use nocap_crypt.Ui.Event.{
  Event, ProgressFlavor, didactic_bar, meme, sterile, cipher_selected, hardware_accel_path,
  concurrency_info, alignment_status, phase_timing, entropy_score, banner, message,
}
use nocap_crypt.Ui.Narrate.{
  explain_block_cipher_basics, explain_xts_tweakability, xts_ascii_diagram,
  explain_xts_malleability, explain_headerless_plain_reference, explain_alignment_context,
  explain_plain64_tweak_is_not_secret, explain_iv_derivation, narration_sample_note,
}
use nocap_crypt.Ui.Explain.{explain_entropy_result_ciphertext}
use nocap_crypt.Cli.ExitCode.{
  ExitCode, success, io, key_validation, luks_compat, unsupported_cipher, invalid_args,
}
use nocap_crypt.Cli.KeyLoad.{CipherArg, KeyFormatArg, load_key_file, resolve_cipher_spec}
use nocap_crypt.Cli.Compat.{Outcome, is_failure, message as outcome_message}
use nocap_crypt.Cli.Console.{
  Console, spec_error_text, load_error_text, validation_error_text, engine_error_text,
}
use nocap_crypt.Cli.Report.{
  Report, ◌>>=◌, ◌>>◌, pure, report, narrate, bail, or_bail, or_panic, or_panicked, if_some,
}
use nocap_crypt.Cli.Image.{aligned_output_size}

-- The options that both commands have; paths are as they are displayed.
pub record FileArgs : Type 0 where
  pub input : String
  pub output : String
  pub key_format : KeyFormatArg
  pub cipher : CipherArg
  pub key_size : Option ℕ
  pub max_workers : Option ℕ
  pub small_file_threshold : ℕ
  pub pin_to_submission_thread : Bool

-- `TransferJob`, without the files, and with the label of the progress display.
pub record TransferJob : Type 0 where
  pub engine : SectorEngine
  pub ranges : List SectorRange
  pub real_data_len : ℕ
  pub progress_total_bytes : ℕ
  pub concurrency : Concurrency
  pub encrypt : Bool
  pub context : String

-- The reporter's extras, and what the system answers: what reading the key file, `stat` and the two
-- opens give, `compute` and `detect_hw_accel`, how `dispatch_with_progress` ends, the time that it took
-- (in milliseconds, and in seconds with `max(1e-9)`), what reading the output gives, and the check
-- against cryptsetup.
pub record Surroundings (F : Type 0) : Type 0 where
  pub boot_banner : Option String
  pub corporate_joke : Option String
  pub progress_flavor : ProgressFlavor
  pub key_read : Result ℕ (List ℕ)
  pub stat : Result ℕ ℕ
  pub input_opened : Result ℕ (Unit {0})
  pub output_created : Result ℕ (Unit {0})
  pub system_info : DispatchInfo
  pub hw_description : String
  pub dispatch : TransferJob → Result String (Unit {0})
  pub duration_ms : ℕ
  pub seconds : F
  pub output_read : Option (List ℕ)
  pub compat : CipherSpec → List ℕ → Outcome

-- `Debug` of the two types.
disk_debug : DiskType → String
disk_debug ssd = "Ssd"
disk_debug rotational = "Rotational"
disk_debug unknown = "Unknown"

concurrency_debug : Concurrency → String
concurrency_debug synchronous = "Synchronous"
concurrency_debug global_pool = "GlobalPool"
concurrency_debug (fixed n) = "Fixed(" <> show_nat n <> ")"

-- `progress_context`
unfoldable pub progress_context :
    ProgressFlavor → String → CipherSpec → Concurrency → ℕ → Option String → String
unfolding concurrency_debug
progress_context didactic_bar op spec concurrency chunk_sectors hw_description =
    as_str spec
    <> " (AES-"
    <> show_nat (bits spec.aes_bits)
    <> ") | concurrency: "
    <> concurrency_debug concurrency
    <> elim hw_description [ some d ↦ " | hw: " <> d | none ↦ "" ]
    <> " | chunk: "
    <> show_nat chunk_sectors
    <> " sectors"
progress_context meme op spec concurrency chunk_sectors hw_description = op <> " / " <> as_str spec
progress_context sterile op spec concurrency chunk_sectors hw_description =
    op <> " / " <> as_str spec

-- The text of `aligned_output_size`'s error.
abbrev size_error_text : ℕ → String
size_error_text zero = "--align-block-size must be nonzero"
size_error_text (suc n) = "--align-block-size/--align-extra-block combination overflows"

module _ (c : Console) (p : Primitives) (d : Decoders) where
  open c use {numbers, narrates, os_text}
  open numbers use {floats}
  open floats use {F}

  -- `resolve_spec_and_key`
  unfoldable pub report_spec_and_key : FileArgs → Surroundings F → Report F (CipherSpec × List ℕ)
  report_spec_and_key args sys = do
    spec ←
        or_bail (resolve_cipher_spec args.cipher args.key_size) unsupported_cipher
          (spec_error_text c)
    key ← or_bail (load_key_file d sys.key_read args.key_format) io (load_error_text c)
    or_bail (validate_key floats spec key) key_validation (validation_error_text c)
    pure (spec, key)

  -- `narrate_cipher_intro`
  unfoldable pub narrate_cipher_intro : CipherSpec → Report F (Unit {0})
  narrate_cipher_intro spec = do
    narrate narrates explain_block_cipher_basics
    narrate narrates explain_xts_tweakability
    narrate narrates xts_ascii_diagram
    narrate narrates explain_xts_malleability
    report (cipher_selected (as_str spec) (bits spec.aes_bits))

  -- `build_engine`
  unfoldable pub report_engine : CipherSpec → List ℕ → Report F SectorEngine
  report_engine spec key = or_panic (new p spec key) key_validation (engine_error_text c)

  -- `stat_input_len`
  unfoldable pub stat_input_len : FileArgs → Surroundings F → Report F ℕ
  stat_input_len args sys = or_bail sys.stat io (λ e. "stat " <> args.input <> ": " <> os_text e)

  -- `resolve_and_report_concurrency`
  unfoldable pub resolve_and_report_concurrency :
      FileArgs → Surroundings F → ℕ → Report F Concurrency
  unfolding disk_debug concurrency_debug
  resolve_and_report_concurrency args sys input_len =
      let concurrency =
        resolve input_len args.small_file_threshold args.pin_to_submission_thread
          args.max_workers in
      (report (
          concurrency_info sys.system_info.effective_cores (disk_debug sys.system_info.disk_type)
            sys.system_info.chunk_sectors (concurrency_debug concurrency))
        >> pure concurrency)

  -- `open_input_file` and `open_output_file`
  unfoldable pub report_files : FileArgs → Surroundings F → Report F (Unit {0})
  report_files args sys = do
    or_bail sys.input_opened io (λ e. "opening " <> args.input <> ": " <> os_text e)
    or_bail sys.output_created io (λ e. "creating " <> args.output <> ": " <> os_text e)

  -- `narrate_sample_iv_if_applicable`
  unfoldable pub narrate_sample_iv_if_applicable : ℕ → Report F (Unit {0})
  narrate_sample_iv_if_applicable input_len =
      if ltb 0 input_len
      then narrate narrates (
          explain_plain64_tweak_is_not_secret
          <> "\n  "
          <> explain_iv_derivation 0 (plain64_iv 0)
          <> "\n  "
          <> narration_sample_note)
      else pure tt

  -- `transfer_and_report_timing`
  unfoldable pub transfer_and_report_timing :
      Surroundings F → TransferJob → String → Report F (Unit {0})
  transfer_and_report_timing sys job phase = do
    or_bail (sys.dispatch job) io (λ text. text)
    report (
        phase_timing phase sys.duration_ms (
          some (
            floats.div
              (floats.div (floats.of_nat job.progress_total_bytes)
                (floats.mul (floats.of_nat 1024) (floats.of_nat 1024)))
              sys.seconds)))

  -- The score of the ciphertext.
  unfoldable pub report_ciphertext : Surroundings F → ℕ → Report F (Unit {0})
  report_ciphertext sys input_len =
      if ltb 0 input_len
      then elim sys.output_read [
        | some ciphertext ↦
            let real = take input_len ciphertext in
            let bits_per_byte = shannon_entropy floats real in
            (report (entropy_score bits_per_byte (is_uniform floats real floats.z_95))
              >> narrate narrates (explain_entropy_result_ciphertext numbers bits_per_byte))
        | none ↦ pure tt
      ]
      else pure tt

  -- The check against cryptsetup at the end.
  unfoldable pub report_compat : Bool → Surroundings F → CipherSpec → List ℕ → Report F ExitCode
  report_compat wanted sys spec key =
      if wanted
      then (report (message (outcome_message (sys.compat spec key)))
          >> pure (if is_failure (sys.compat spec key) then luks_compat else success))
      else pure success

  -- What `image encrypt` tells of the key.
  unfoldable pub report_key : Surroundings F → List ℕ → Report F (Unit {0})
  report_key sys key = do
    narrate narrates ("key fingerprint: " <> fingerprint p key)
    narrate narrates explain_headerless_plain_reference
    if_some sys.corporate_joke (λ joke.
        report (message ("WARNING: " <> joke)) >> report (message "SECURING VOLUME ANYWAY."))
    report (hardware_accel_path sys.hw_description)

  -- `aligned_output_size`, with its errors reported.
  unfoldable pub report_output_size : FileArgs → ℕ → ℕ → ℕ → Report F ℕ
  report_output_size args input_len align_block_size align_extra_block = do
    output_size ←
        or_bail (aligned_output_size input_len align_block_size align_extra_block) invalid_args
          (λ exit. size_error_text align_block_size)
    report (alignment_status args.output true align_block_size)
    narrate narrates explain_alignment_context
    pure output_size

  -- `run_encrypt_impl`, where `run_encrypt` makes one exit code of its two.
  unfoldable pub run_encrypt : FileArgs → ℕ → ℕ → Bool → Surroundings F → Report F ExitCode
  run_encrypt args align_block_size align_extra_block dry_run_cryptsetup_compat sys = do
    if_some sys.boot_banner (λ text. report (banner text))
    k ← report_spec_and_key args sys
    narrate_cipher_intro k.0
    report_key sys k.1
    engine ← report_engine k.0 k.1
    input_len ← stat_input_len args sys
    output_size ← report_output_size args input_len align_block_size align_extra_block
    concurrency ← resolve_and_report_concurrency args sys input_len
    report_files args sys
    narrate_sample_iv_if_applicable input_len
    ranges ← or_panicked (chunk_ranges output_size sys.system_info.chunk_sectors)
    transfer_and_report_timing sys
        (record {
          engine = engine;
          ranges = ranges;
          real_data_len = input_len;
          progress_total_bytes = output_size;
          concurrency = concurrency;
          encrypt = true;
          context =
              progress_context sys.progress_flavor "encrypt" k.0 concurrency
                sys.system_info.chunk_sectors (some sys.hw_description);
        })
        "encrypt"
    report_ciphertext sys input_len
    report_compat dry_run_cryptsetup_compat sys k.0 k.1

  -- `run_decrypt_impl`
  unfoldable pub run_decrypt : FileArgs → Surroundings F → Report F ExitCode
  run_decrypt args sys = do
    if_some sys.boot_banner (λ text. report (banner text))
    k ← report_spec_and_key args sys
    narrate_cipher_intro k.0
    engine ← report_engine k.0 k.1
    input_len ← stat_input_len args sys
    concurrency ← resolve_and_report_concurrency args sys input_len
    report_files args sys
    narrate_sample_iv_if_applicable input_len
    ranges ← or_panicked (chunk_ranges input_len sys.system_info.chunk_sectors)
    transfer_and_report_timing sys
        (record {
          engine = engine;
          ranges = ranges;
          real_data_len = input_len;
          progress_total_bytes = input_len;
          concurrency = concurrency;
          encrypt = false;
          context =
              progress_context sys.progress_flavor "decrypt" k.0 concurrency
                sys.system_info.chunk_sectors none;
        })
        "decrypt"
    pure success
