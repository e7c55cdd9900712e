-- ===== src/Cli/Image/Reports/Tests.antt =====
-- The image commands with their reports at work.
use nocap_crypt.Base.{ℕ, ◌≡◌, refl, true, false, none, some, List, [], ◌∷◌, replicate}
use nocap_crypt.Base.Result.{Result, ok, err, failed}
use nocap_crypt.Base.Text.{show_nat}
use nocap_crypt.Core.CipherSpec.{parse}
use nocap_crypt.Core.Primitives.Toy.{toy}
use nocap_crypt.Entropy.Blind.{blind}
use nocap_crypt.Keymgmt.Format.{Decoders}
use nocap_crypt.Worker.DiskInfo.{ssd}
use nocap_crypt.Ui.Event.{sterile, error, banner}
use nocap_crypt.Cli.ExitCode.{io}
use nocap_crypt.Cli.KeyLoad.{
  aes_xts_plain64, raw_arg, resolve_cipher_spec, cipher_name, load_key_file,
}
use nocap_crypt.Cli.Compat.{match}
use nocap_crypt.Cli.Console.{Console, load_error_text}
use nocap_crypt.Cli.Report.{Tells, ◌>>=◌, ◌>>◌}
use nocap_crypt.Cli.Image.Reports.{
  FileArgs, Surroundings, report_spec_and_key, run_encrypt, run_decrypt,
}
use nocap_crypt.Cli.Image.Reports.Tells.{run_image-Tells}

abbrev console : Console
console = record {
  numbers = record { floats = blind; fixed = λ decimals x. "7.0" };
  narrates = true;
  os_text = show_nat;
  debug = λ s. s;
}

abbrev decoders : Decoders
decoders = record { hex_decode = λ text. err "hex"; base64_decode = λ text. err "base64" }

abbrev args : FileArgs
args = record {
  input = "in";
  output = "out";
  key_format = raw_arg;
  cipher = aes_xts_plain64;
  key_size = none;
  max_workers = none;
  small_file_threshold = 4096;
  pin_to_submission_thread = false;
}

-- A system where all goes well, but for the reading of the key file.
abbrev with_key : Result ℕ (List ℕ) → Surroundings blind.F
with_key key_read = record {
  boot_banner = some "boot";
  corporate_joke = none;
  progress_flavor = sterile;
  key_read = key_read;
  stat = ok 1024;
  input_opened = ok tt;
  output_created = ok tt;
  system_info = record { effective_cores = 4; disk_type = ssd; chunk_sectors = 8 };
  hw_description = "none";
  dispatch = λ job. ok tt;
  duration_ms = 1;
  seconds = tt;
  output_read = none;
  compat = λ spec key. match;
}

run_image-Tells_example :
    Tells (run_encrypt console toy decoders args 4096 1 true (with_key (ok (replicate 64 7))))
    × Tells (run_decrypt console toy decoders args (with_key (ok (replicate 64 7))))
run_image-Tells_example =
    run_image-Tells console toy decoders args 4096 1 true (with_key (ok (replicate 64 7)))

-- A key file that cannot be read.
no_key :
    run_decrypt console toy decoders args (with_key (err 2))
    ≡ (banner "boot" ∷ (error "reading key file: 2" ∷ []), err (failed io))
unfolding run_decrypt report_spec_and_key resolve_cipher_spec cipher_name parse load_key_file
    load_error_text show_nat ◌>>=◌ ◌>>◌
no_key = refl
