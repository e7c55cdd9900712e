-- ===== src/Core/Engine.antt =====
-- crates/nocap-crypt-core/src/cipher.rs and engine.rs: the keyed sector engine over the primitives.
-- A buffer that is changed in place is an argument and the result. Sums of `u64`s wrap, as release
-- builds let them.
pub mod Cbc
pub mod Sectors
pub mod Laws
use nocap_crypt.Base.{
  ℕ, zero, suc, ◌+◌, ◌/◌, ◌%◌, ◌^◌, Bool, true, false, Option, none, some, List, ◌++◌, length, take,
  drop, ◌==◌, if◌then◌else◌,
}
use nocap_crypt.Base.Bytes.{xor_bytes}
use nocap_crypt.Base.Result.{Result, ok, err, Fault, failed, panicked}
use nocap_crypt.Core.CipherSpec.{
  xts_plain64, cbc_essiv_sha256, AesKeyBits, bits128, bits192, bits256, CipherSpec,
  required_key_bytes,
}
use nocap_crypt.Core.Iv.{sector_size, plain64_iv}
use nocap_crypt.Core.Primitives.{Primitives}

pub data KeyError : Type 0 where
  -- expected and actual
  wrong_length : ℕ → ℕ → KeyError

-- `Xts128<AesN>`: the two halves of the key.
pub data XtsVariant : Type 0 where
  aes128 aes192 aes256 : List ℕ → List ℕ → XtsVariant

-- The keys of the main and the salt cipher.
pub data CbcEssivVariant : Type 0 where
  main_essiv : List ℕ → List ℕ → CbcEssivVariant

pub data SectorEngine : Type 0 where
  xts : XtsVariant → SectorEngine
  cbc_essiv : CbcEssivVariant → SectorEngine

-- The `u128` index is cut to a `u64`.
unfoldable pub tweak_fn : ℕ → List ℕ
tweak_fn sector_index = plain64_iv (sector_index % 2 ^ 64)

-- The `match spec.aes_bits` under XTS.
unfoldable pub xts_variant : AesKeyBits → List ℕ → List ℕ → XtsVariant
xts_variant bits128 k1 k2 = aes128 k1 k2
xts_variant bits192 k1 k2 = aes192 k1 k2
xts_variant bits256 k1 k2 = aes256 k1 k2

-- The loops over 16-byte blocks: `n` blocks are left. A cipher is its function on blocks.
unfoldable pub cbc_encrypt_loop : (List ℕ → List ℕ) → List ℕ → ℕ → List ℕ → List ℕ
cbc_encrypt_loop cipher prev zero buf = buf
cbc_encrypt_loop cipher prev (suc n) buf =
    let block = cipher (xor_bytes (take 16 buf) prev) in
    block ++ cbc_encrypt_loop cipher block n (drop 16 buf)

unfoldable pub cbc_decrypt_loop : (List ℕ → List ℕ) → List ℕ → ℕ → List ℕ → List ℕ
cbc_decrypt_loop cipher prev zero buf = buf
cbc_decrypt_loop cipher prev (suc n) buf =
    let ciphertext = take 16 buf in
    xor_bytes (cipher ciphertext) prev ++ cbc_decrypt_loop cipher ciphertext n (drop 16 buf)

-- `as_chunks_mut::<16>` leaves a shorter rest of the buffer out.
unfoldable pub cbc_encrypt_blocks : (List ℕ → List ℕ) → List ℕ → List ℕ → List ℕ
cbc_encrypt_blocks cipher iv buf = cbc_encrypt_loop cipher iv (length buf / 16) buf

unfoldable pub cbc_decrypt_blocks : (List ℕ → List ℕ) → List ℕ → List ℕ → List ℕ
cbc_decrypt_blocks cipher iv buf = cbc_decrypt_loop cipher iv (length buf / 16) buf

module _ (p : Primitives) where
  -- `SectorEngine::new`; the `unreachable!` is a panic.
  unfoldable pub new : CipherSpec → List ℕ → Result (Fault KeyError) SectorEngine
  new spec key =
      let expected = required_key_bytes spec in
      if length key == expected
      then elim spec.mode [
        | xts_plain64 ↦
            let half = length key / 2 in
            ok (xts (xts_variant spec.aes_bits (take half key) (drop half key)))
        | cbc_essiv_sha256 ↦ elim spec.aes_bits [
          | bits256 ↦ ok (cbc_essiv (main_essiv key (p.sha256 key)))
          | _ ↦ err panicked
        ]
      ]
      else err (failed (wrong_length expected (length key)))

  -- The body of the loop of `cbc_essiv_crypt_range` (its macro `run!`), on one sector's bytes.
  unfoldable pub cbc_essiv_sector : CbcEssivVariant → ℕ → List ℕ → Bool → List ℕ
  cbc_essiv_sector (main_essiv main essiv) sector_index sector_buf encrypt =
      let iv = p.encrypt_block bits256 essiv (plain64_iv sector_index) in
      if encrypt
      then cbc_encrypt_blocks (p.encrypt_block bits256 main) iv sector_buf
      else cbc_decrypt_blocks (p.decrypt_block bits256 main) iv sector_buf

  -- `for s in s..s + n`: the bytes of the sectors from `s` on are in `buf`.
  unfoldable pub cbc_essiv_loop : CbcEssivVariant → ℕ → ℕ → ℕ → List ℕ → Bool → List ℕ
  cbc_essiv_loop variant first_sector s zero buf encrypt = buf
  cbc_essiv_loop variant first_sector s (suc n) buf encrypt =
      cbc_essiv_sector variant ((first_sector + s) % 2 ^ 64) (take sector_size buf) encrypt
      ++ cbc_essiv_loop variant first_sector (s + 1) n (drop sector_size buf) encrypt

  unfoldable pub cbc_essiv_crypt_range : CbcEssivVariant → ℕ → List ℕ → Bool → List ℕ
  cbc_essiv_crypt_range variant first_sector buf encrypt =
      cbc_essiv_loop variant first_sector 0 (length buf / sector_size) buf encrypt

  unfoldable pub xts_encrypt_area : XtsVariant → ℕ → List ℕ → List ℕ
  xts_encrypt_area (aes128 k1 k2) first buf =
      p.encrypt_area bits128 k1 k2 buf sector_size first tweak_fn
  xts_encrypt_area (aes192 k1 k2) first buf =
      p.encrypt_area bits192 k1 k2 buf sector_size first tweak_fn
  xts_encrypt_area (aes256 k1 k2) first buf =
      p.encrypt_area bits256 k1 k2 buf sector_size first tweak_fn

  unfoldable pub xts_decrypt_area : XtsVariant → ℕ → List ℕ → List ℕ
  xts_decrypt_area (aes128 k1 k2) first buf =
      p.decrypt_area bits128 k1 k2 buf sector_size first tweak_fn
  xts_decrypt_area (aes192 k1 k2) first buf =
      p.decrypt_area bits192 k1 k2 buf sector_size first tweak_fn
  xts_decrypt_area (aes256 k1 k2) first buf =
      p.decrypt_area bits256 k1 k2 buf sector_size first tweak_fn

  -- `SectorEngine::encrypt_range`; `none` is the panic of its `assert_eq!`.
  unfoldable pub encrypt_range : SectorEngine → ℕ → List ℕ → Option (List ℕ)
  encrypt_range engine first_sector buf =
      if length buf % sector_size == 0
      then some (elim engine [
        | xts variant ↦ xts_encrypt_area variant first_sector buf
        | cbc_essiv variant ↦ cbc_essiv_crypt_range variant first_sector buf true
      ])
      else none

  -- `SectorEngine::decrypt_range`
  unfoldable pub decrypt_range : SectorEngine → ℕ → List ℕ → Option (List ℕ)
  decrypt_range engine first_sector buf =
      if length buf % sector_size == 0
      then some (elim engine [
        | xts variant ↦ xts_decrypt_area variant first_sector buf
        | cbc_essiv variant ↦ cbc_essiv_crypt_range variant first_sector buf false
      ])
      else none
