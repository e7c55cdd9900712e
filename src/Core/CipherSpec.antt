-- ===== src/Core/CipherSpec.antt =====
-- crates/nocap-crypt-core/src/cipherspec.rs: cipher spec strings and key lengths. A `u16` bit count
-- is a number; Rust's `==` on the enums is the derived one.
pub mod Laws
use nocap_crypt.Base.{
  ℕ, ◌*◌, Bool, true, false, Option, none, some, String, str_eq, ◌==◌, if◌then◌else◌,
}
use nocap_crypt.Base.Result.{Result, ok, err, ◌>>=◌, ◌>>◌, ok_or}

pub data CipherMode : Type 0 where
  xts_plain64 cbc_essiv_sha256 : CipherMode

pub data AesKeyBits : Type 0 where
  bits128 bits192 bits256 : AesKeyBits

-- `AesKeyBits::bytes`
unfoldable pub bytes : AesKeyBits → ℕ
bytes bits128 = 16
bytes bits192 = 24
bytes bits256 = 32

-- `AesKeyBits::from_bits`
unfoldable pub from_bits : ℕ → Option AesKeyBits
from_bits bits =
    if bits == 128
    then some bits128
    else if bits == 192
    then some bits192
    else if bits == 256
    then some bits256
    else none

-- `AesKeyBits::bits`
unfoldable pub bits : AesKeyBits → ℕ
bits bits128 = 128
bits bits192 = 192
bits bits256 = 256

pub record CipherSpec : Type 0 where
  pub mode : CipherMode
  pub aes_bits : AesKeyBits

pub data CipherSpecError : Type 0 where
  unknown_spec : String → CipherSpecError
  unsupported_xts_key_size : ℕ → CipherSpecError
  unsupported_essiv_key_size : ℕ → CipherSpecError
  unsupported_key_size : ℕ → CipherSpecError

-- `CipherSpec::parse`
unfoldable pub parse : String → Result CipherSpecError CipherSpec
parse spec =
    if str_eq spec "aes-xts-plain64"
    then ok (record { mode = xts_plain64; aes_bits = bits256 })
    else if str_eq spec "aes-cbc-essiv:sha256"
    then ok (record { mode = cbc_essiv_sha256; aes_bits = bits256 })
    else err (unknown_spec spec)

-- The guards of the `match self.mode` in `with_aes_bits`.
unfoldable pub check_mode : CipherMode → AesKeyBits → ℕ → Result CipherSpecError (Unit {0})
check_mode xts_plain64 bits192 n = err (unsupported_xts_key_size n)
check_mode xts_plain64 _ n = ok tt
check_mode cbc_essiv_sha256 bits256 n = ok tt
check_mode cbc_essiv_sha256 _ n = err (unsupported_essiv_key_size n)

-- `CipherSpec::with_aes_bits`
unfoldable pub with_aes_bits : CipherSpec → ℕ → Result CipherSpecError CipherSpec
unfolding check_mode from_bits
with_aes_bits spec n = do
  parsed ← ok_or (from_bits n) (unsupported_key_size n)
  check_mode spec.mode parsed n
  ok (record spec { aes_bits = parsed })

-- `CipherSpec::required_key_bytes`
unfoldable pub required_key_bytes : CipherSpec → ℕ
unfolding bytes
required_key_bytes spec = elim spec.mode [
  | xts_plain64 ↦ bytes spec.aes_bits * 2
  | cbc_essiv_sha256 ↦ bytes spec.aes_bits
]

-- `CipherSpec::as_str`
unfoldable pub as_str : CipherSpec → String
as_str spec = elim spec.mode [
  | xts_plain64 ↦ "aes-xts-plain64"
  | cbc_essiv_sha256 ↦ "aes-cbc-essiv:sha256"
]
