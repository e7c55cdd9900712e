-- ===== src/Cli/Validate/Tests.antt =====
-- `validate` on one sector that begins with the magic of squashfs.
use nocap_crypt.Base.{ℕ, zero, suc, ◌≡◌, refl, true, some, List, [], ◌∷◌, ◌++◌, replicate, arith}
use nocap_crypt.Base.Bytes.{IsByte, IsBytes, append-IsBytes, xor_bytes}
use nocap_crypt.Base.Result.{ok, err}
use nocap_crypt.Base.Text.{show_nat}
use nocap_crypt.Core.CipherSpec.{
  xts_plain64, bits128, bytes, CipherSpec, parse, with_aes_bits, check_mode, from_bits,
  required_key_bytes,
}
use nocap_crypt.Core.Iv.{plain64_iv}
use nocap_crypt.Core.Primitives.{IsAesKey}
use nocap_crypt.Core.Primitives.Toy.{toy, toy-IsLawful, pieces}
use nocap_crypt.Core.Engine.{
  SectorEngine, xts, aes128, new, encrypt_range, xts_encrypt_area, xts_variant, tweak_fn,
}
use nocap_crypt.Core.Engine.Laws.Keyed.{IsKeyed}
use nocap_crypt.Blockio.Disk.{disk, disk-IsPosix, disk-IsReliable}
use nocap_crypt.Blockio.Open.{open_read}
use nocap_crypt.Entropy.Blind.{blind}
use nocap_crypt.Keymgmt.Format.{Decoders, parse_key}
use nocap_crypt.Cli.ExitCode.{success}
use nocap_crypt.Cli.KeyLoad.{
  aes_xts_plain64, cipher_name, raw_arg, load_key_file, resolve_format, resolve_cipher_spec,
}
use nocap_crypt.Cli.Console.{Console, Ran}
use nocap_crypt.Cli.Validate.{ValidateArgs, Answers, detect_fs_magic, run_validate}
use nocap_crypt.Cli.Validate.Ends.{Ends, Accepted, run_validate-Ends}
use nocap_crypt.Cli.Validate.Accepts.{Holds, run_validate-success}

abbrev console : Console
console = record {
  numbers = record { floats = blind; fixed = λ decimals x. "7.00" };
  narrates = true;
  os_text = show_nat;
  debug = λ s. s;
}

abbrev decoders : Decoders
decoders = record { hex_decode = λ text. err "hex"; base64_decode = λ text. err "base64" }

abbrev key16 : ℕ → List ℕ
key16 b = replicate 16 b

mask : (n : ℕ) (b : ℕ) → IsByte b → IsBytes (replicate n b)
mask zero b h = tt
mask (suc n) b h = (h, mask n b h)

key : (b : ℕ) → IsByte b → IsAesKey bits128 (key16 b)
unfolding bytes
key b h = record { key_length = refl; key_bytes = mask 16 b h }

abbrev engine : SectorEngine
engine = xts (aes128 (key16 1) (key16 2))

keyed : IsKeyed engine
keyed = (key 1 (omega arith), key 2 (omega arith))

abbrev key_bytes : List ℕ
key_bytes = key16 1 ++ key16 2

abbrev spec : CipherSpec
spec = record { mode = xts_plain64; aes_bits = bits128 }

built : new toy spec key_bytes ≡ ok engine
unfolding new required_key_bytes bytes xts_variant
built = refl

abbrev image : List ℕ
image = (104 ∷ 115 ∷ 113 ∷ 115 ∷ []) ++ replicate 508 0

image-IsBytes : IsBytes image
image-IsBytes =
    append-IsBytes (104 ∷ 115 ∷ 113 ∷ 115 ∷ []) (replicate 508 0)
      (omega arith, (omega arith, (omega arith, (omega arith, tt)))) (mask 508 0 (omega arith))

-- The tweak of sector 0 is zeros, which leave the bytes as they are under the primitives of the tests.
encrypted : encrypt_range toy engine 0 image ≡ some image
unfolding encrypt_range xts_encrypt_area toy tweak_fn plain64_iv pieces xor_bytes
encrypted = refl

abbrev args : ValidateArgs
args = record {
  input = "disk.img";
  cipher = aes_xts_plain64;
  key_size = some 128;
  key_file = some "disk.key";
  key_format = raw_arg;
}

abbrev answers : Answers
answers = record {
  stat = ok 512;
  key_read = ok key_bytes;
  opens = λ direct. ok image;
  io_text = λ e. "io";
}

resolved : resolve_cipher_spec aes_xts_plain64 (some 128) ≡ ok spec
unfolding resolve_cipher_spec cipher_name parse with_aes_bits check_mode from_bits
resolved = refl

loaded : load_key_file decoders (ok key_bytes) raw_arg ≡ ok key_bytes
unfolding load_key_file resolve_format parse_key
loaded = refl

magic : detect_fs_magic image ≡ some "squashfs"
unfolding detect_fs_magic
magic = refl

held : Holds answers image
unfolding open_read
held = record {
  file = record { file = image; direct_io_active = true };
  opened = refl;
  content = refl;
}

run_validate-success_example :
    (r : Ran console) × (run_validate console toy disk decoders args answers ≡ some r)
    × (r.1 ≡ success)
run_validate-success_example =
    run_validate-success toy toy-IsLawful engine keyed console disk decoders disk-IsPosix
      disk-IsReliable args answers spec key_bytes image image "disk.key" "squashfs" resolved refl
      loaded built (refl, image-IsBytes) encrypted refl held magic

run_validate-Ends_example :
    Ends console toy disk decoders
      (Accepted console toy disk decoders toy-IsLawful disk-IsPosix args answers)
      (run_validate console toy disk decoders args answers)
run_validate-Ends_example =
    run_validate-Ends console toy disk decoders toy-IsLawful disk-IsPosix args answers
