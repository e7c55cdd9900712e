-- ===== src/Cli/Image/Plan.antt =====
-- crates/nocap-crypt-cli/src/cmd/image.rs, `run_encrypt_impl` and `run_decrypt_impl`: what happens
-- before the transfer, with every exit.
use nocap_crypt.Base.{ℕ, Bool, Option, List, if◌then◌else◌}
use nocap_crypt.Base.Result.{Result, ok, err, ◌>>=◌, map_err, ok_or, Fault, failed, panicked}
use nocap_crypt.Core.CipherSpec.{CipherSpec}
use nocap_crypt.Core.Primitives.{Primitives}
use nocap_crypt.Core.Engine.{SectorEngine, new}
use nocap_crypt.Entropy.Floats.{Floats}
use nocap_crypt.Keymgmt.Validate.{validate_key}
use nocap_crypt.Worker.Concurrency.{Concurrency, resolve}
use nocap_crypt.Worker.Dispatch.{SectorRange, chunk_ranges}
use nocap_crypt.Cli.ExitCode.{ExitCode, unsupported_cipher, io, key_validation}
use nocap_crypt.Cli.KeyLoad.{CipherArg, resolve_cipher_spec}
use nocap_crypt.Cli.Image.{aligned_output_size}
use nocap_crypt.Cli.Image.Output.{chunk_sectors}

-- The options that both commands have.
pub record KeyArgs : Type 0 where
  pub cipher : CipherArg
  pub key_size : Option ℕ

pub record WorkerArgs : Type 0 where
  pub max_workers : Option ℕ
  pub small_file_threshold : ℕ
  pub pin_to_submission_thread : Bool

-- What the system answers: the key material that `load_key_file` decodes, the length that `stat`
-- reports, and whether the two files can be opened.
pub record Answers : Type 0 where
  pub loaded : Option (List ℕ)
  pub stat : Option ℕ
  pub input_opens : Bool
  pub output_opens : Bool

-- What a transfer starts from.
pub record Plan : Type 0 where
  pub engine : SectorEngine
  pub input_len : ℕ
  pub output_size : ℕ
  pub concurrency : Concurrency
  pub ranges : List SectorRange

-- `resolve_spec_and_key`
unfoldable pub resolve_spec_and_key :
    Floats → KeyArgs → Answers → Result ExitCode (CipherSpec × List ℕ)
resolve_spec_and_key fl args sys =
    map_err (resolve_cipher_spec args.cipher args.key_size) (λ _. unsupported_cipher) >>= λ spec.
    ok_or sys.loaded io >>= λ key.
    map_err (validate_key fl spec key) (λ _. key_validation) >>= λ _. ok (spec, key)

-- A panic stays one, an error of the callee becomes an exit code.
abbrev pub exit_with {ℓ} : {E : Type ℓ} → ExitCode → Fault E → Fault ExitCode
exit_with code panicked = panicked
exit_with code (failed e) = failed code

-- `build_engine`
unfoldable pub build_engine :
    Primitives → CipherSpec × List ℕ → Result (Fault ExitCode) SectorEngine
build_engine p key = map_err (new p key.0 key.1) (exit_with key_validation)

-- The engine for the options.
unfoldable pub open_engine :
    Floats → Primitives → KeyArgs → Answers → Result (Fault ExitCode) SectorEngine
open_engine fl p args sys =
    map_err (resolve_spec_and_key fl args sys) failed >>= λ key. build_engine p key

-- From the engine and the sizes to the start of the transfer.
unfoldable pub open_files :
    WorkerArgs → Answers → SectorEngine → ℕ → ℕ → Result (Fault ExitCode) Plan
open_files args sys engine input_len output_size =
    let concurrency =
      resolve input_len args.small_file_threshold args.pin_to_submission_thread args.max_workers in
    if sys.input_opens
    then (if sys.output_opens
        then (ok_or (chunk_ranges output_size chunk_sectors) panicked >>= λ ranges. ok (record {
          engine = engine;
          input_len = input_len;
          output_size = output_size;
          concurrency = concurrency;
          ranges = ranges;
        }))
        else err (failed io))
    else err (failed io)

-- `run_encrypt_impl` up to its transfer.
unfoldable pub encrypt_plan :
    Floats → Primitives → KeyArgs → ℕ → ℕ → WorkerArgs → Answers → Result (Fault ExitCode) Plan
encrypt_plan fl p key_args align_block_size align_extra_block worker_args sys = do
  engine ← open_engine fl p key_args sys
  input_len ← ok_or sys.stat (failed io)
  output_size ← map_err (aligned_output_size input_len align_block_size align_extra_block) failed
  open_files worker_args sys engine input_len output_size

-- `run_decrypt_impl` up to its transfer.
unfoldable pub decrypt_plan :
    Floats → Primitives → KeyArgs → WorkerArgs → Answers → Result (Fault ExitCode) Plan
decrypt_plan fl p key_args worker_args sys = do
  engine ← open_engine fl p key_args sys
  input_len ← ok_or sys.stat (failed io)
  open_files worker_args sys engine input_len input_len
