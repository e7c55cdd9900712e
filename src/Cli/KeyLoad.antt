-- ===== src/Cli/KeyLoad.antt =====
-- crates/nocap-crypt-cli/src/keyload.rs: from the options `--cipher` and `--key-size` to a spec, and
-- from a key file to a key.
use nocap_crypt.Base.{ℕ, ◌≡◌, ◌⊎◌, inl, refl, Option, none, some, List, String, arith}
use nocap_crypt.Base.Bytes.{IsBytes}
use nocap_crypt.Base.Result.{Result, ok, ◌>>=◌, map_err}
use nocap_crypt.Keymgmt.Format.{
  KeyFormat, raw, hex, base64, Decoders, KeyParseError, parse_key, detect_format, IsDecoding,
  parse_key-detect_format,
}
use nocap_crypt.Core.CipherSpec.{
  CipherMode, xts_plain64, cbc_essiv_sha256, CipherSpec, CipherSpecError, bits, bits256, parse,
  with_aes_bits,
}
use nocap_crypt.Core.CipherSpec.Laws.{IsSupported, with_aes_bits-ok}

pub data CipherArg : Type 0 where
  aes_xts_plain64 aes_cbc_essiv_sha256 : CipherArg

-- `CipherArg::as_str`
unfoldable pub cipher_name : CipherArg → String
cipher_name aes_xts_plain64 = "aes-xts-plain64"
cipher_name aes_cbc_essiv_sha256 = "aes-cbc-essiv:sha256"

-- `resolve_cipher_spec`
unfoldable pub resolve_cipher_spec : CipherArg → Option ℕ → Result CipherSpecError CipherSpec
resolve_cipher_spec cipher key_size_bits = parse (cipher_name cipher) >>= λ spec.
    elim key_size_bits [ some n ↦ with_aes_bits spec n | none ↦ ok spec ]

pub data KeyFormatArg : Type 0 where
  auto raw_arg hex_arg base64_arg : KeyFormatArg

-- `KeyFormatArg::resolve`
unfoldable pub resolve_format : Decoders → KeyFormatArg → List ℕ → KeyFormat
resolve_format d auto bytes = detect_format d bytes
resolve_format d raw_arg bytes = raw
resolve_format d hex_arg bytes = hex
resolve_format d base64_arg bytes = base64

-- An error of the system is its number.
pub data KeyLoadError : Type 0 where
  io : ℕ → KeyLoadError
  parse_error : KeyParseError → KeyLoadError

-- `load_key_file`, on what reading the path gives.
unfoldable pub load_key_file :
    Decoders → Result ℕ (List ℕ) → KeyFormatArg → Result KeyLoadError (List ℕ)
load_key_file d read format = map_err read io >>= λ bytes.
    map_err (parse_key d bytes (resolve_format d format bytes)) parse_error

-- Without `--key-format`, a key file that can be read is never refused: what its format is taken for,
-- it decodes as, and to bytes.
pub load_key_file-auto :
    (d : Decoders) (decoding : IsDecoding d) (bytes : List ℕ)
    → IsBytes bytes
    → (key : List ℕ) × (load_key_file d (ok bytes) auto ≡ ok key) × IsBytes key
unfolding load_key_file resolve_format
load_key_file-auto d decoding bytes h =
    let (key, r, whole) = parse_key-detect_format d decoding bytes in
    (key, rw (load_key_file, r) refl, whole h)

-- The mode that an option stands for.
abbrev pub mode_of : CipherArg → CipherMode
mode_of aes_xts_plain64 = xts_plain64
mode_of aes_cbc_essiv_sha256 = cbc_essiv_sha256

-- Whatever the options, the spec that comes out is one that an engine can be built for, with the
-- cipher that was asked for, and the key size that was asked for or 256 bits.
pub resolve_cipher_spec-IsSupported :
    (cipher : CipherArg) (key_size : Option ℕ) {spec : CipherSpec}
    → resolve_cipher_spec cipher key_size ≡ ok spec
    → IsSupported spec
      × (spec.mode ≡ mode_of cipher)
      × ((key_size ≡ some (bits spec.aes_bits)) ⊎ ((key_size ≡ none) × (spec.aes_bits ≡ bits256)))
unfolding resolve_cipher_spec cipher_name parse
resolve_cipher_spec-IsSupported aes_xts_plain64 none h = ground arith
resolve_cipher_spec-IsSupported aes_cbc_essiv_sha256 none h = ground arith
resolve_cipher_spec-IsSupported aes_xts_plain64 (some n) {spec} h =
    let (sup, mode, size) =
      (with_aes_bits-ok (record { mode = xts_plain64; aes_bits = bits256 }) n spec).0 h in
    (sup, mode, inl (rw size refl))
resolve_cipher_spec-IsSupported aes_cbc_essiv_sha256 (some n) {spec} h =
    let (sup, mode, size) =
      (with_aes_bits-ok (record { mode = cbc_essiv_sha256; aes_bits = bits256 }) n spec).0 h in
    (sup, mode, inl (rw size refl))
