-- ===== src/Cli/Keys/Tests.antt =====
-- `keygen` and the loading of a key file at work.
use nocap_crypt.Base.{
  ℕ, ◌≡◌, refl, subst, true, Option, none, some, List, [], ◌∷◌, replicate, arith,
}
use nocap_crypt.Base.Bytes.{IsBytes}
use nocap_crypt.Base.Result.{ok, err, ok_injective, not_ok}
use nocap_crypt.Base.Text.{show_nat}
use nocap_crypt.Core.CipherSpec.{CipherSpec, xts_plain64, bits256, parse, required_key_bytes, bytes}
use nocap_crypt.Core.Primitives.Toy.{toy}
use nocap_crypt.Entropy.Blind.{blind}
use nocap_crypt.Keymgmt.Format.{Decoders, IsDecoding}
use nocap_crypt.Keymgmt.KeyFile.{SysRng, Entry, Fs, generate_key, write_key_file}
use nocap_crypt.Cli.KeyLoad.{
  resolve_cipher_spec, cipher_name, aes_xts_plain64, auto, load_key_file, load_key_file-auto,
}
use nocap_crypt.Cli.Console.{Console, Ran}
use nocap_crypt.Cli.Keys.{KeygenArgs, keygen_written, run_keygen}
use nocap_crypt.Cli.Keys.Ends.{Generated, run_keygen-Generated}

abbrev console : Console
console = record {
  numbers = record { floats = blind; fixed = λ decimals x. "7.00" };
  narrates = true;
  os_text = show_nat;
  debug = λ s. s;
}

-- Every even text of digits is decoded to nothing, and no text is base64.
abbrev decoders : Decoders
decoders = record { hex_decode = λ text. ok []; base64_decode = λ text. err "base64" }

decoders-IsDecoding : IsDecoding decoders
decoders-IsDecoding = record {
  hex_decode-ok = λ text even digits. ([], refl);
  hex_decode-IsBytes = λ text {bs} e. subst IsBytes (ok_injective e) tt;
  base64_decode-IsBytes = λ text {bs} e. absurd (not_ok e);
}

load_key_file-auto_example :
    (key : List ℕ) × (load_key_file decoders (ok (48 ∷ 49 ∷ [])) auto ≡ ok key) × IsBytes key
load_key_file-auto_example =
    load_key_file-auto decoders decoders-IsDecoding (48 ∷ 49 ∷ []) (omega arith, (omega arith, tt))

abbrev rng : SysRng
rng n = some (replicate n 7)

abbrev fs : Fs
fs = record { open_error = none; masked = λ mode. mode; write_all = λ key. ok tt }

abbrev entry : Entry
entry = record { content = 1 ∷ []; mode = 420 }

abbrev args : KeygenArgs
args = record { cipher = aes_xts_plain64; key_size = none; output = "disk.key"; force = true }

abbrev spec : CipherSpec
spec = record { mode = xts_plain64; aes_bits = bits256 }

-- The file that was there is replaced.
abbrev replaced : Ran console × Option Entry
replaced =
    keygen_written console toy args spec (replicate 64 7)
      (write_key_file fs (some entry) (replicate 64 7) true)

generated : run_keygen console toy rng fs (some entry) args ≡ some replaced
unfolding run_keygen resolve_cipher_spec cipher_name parse generate_key required_key_bytes bytes
generated = refl

run_keygen-Generated_example : Generated console toy rng fs (some entry) args replaced
run_keygen-Generated_example = run_keygen-Generated console toy rng fs (some entry) args generated
