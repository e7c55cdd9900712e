-- ===== src/Core/Primitives.antt =====
-- The crates that crates/nocap-crypt-core/src/engine.rs calls (`aes`, `xts-mode`, `sha2`), as
-- parameters: their operations, and what their documentation promises.
pub mod Toy
use nocap_crypt.Base.{ℕ, ◌+◌, ◌≤◌, ◌<◌, ◌≡◌, List, [], ◌++◌, length}
use nocap_crypt.Base.Bytes.{IsBytes}
use nocap_crypt.Core.CipherSpec.{AesKeyBits, bytes}
use nocap_crypt.Core.Iv.{IsBlock}

-- A keyed cipher is its key. For `Xts128` the first key is the data cipher's and the second the
-- tweak cipher's. `encrypt_area` takes the area, the sector size, the first sector's index and the
-- function from an index to its tweak.
pub record Primitives : Type 0 where
  pub encrypt_block : AesKeyBits → List ℕ → List ℕ → List ℕ
  pub decrypt_block : AesKeyBits → List ℕ → List ℕ → List ℕ
  pub encrypt_sector : AesKeyBits → List ℕ → List ℕ → List ℕ → List ℕ → List ℕ
  pub decrypt_sector : AesKeyBits → List ℕ → List ℕ → List ℕ → List ℕ → List ℕ
  pub encrypt_area : AesKeyBits → List ℕ → List ℕ → List ℕ → ℕ → ℕ → (ℕ → List ℕ) → List ℕ
  pub decrypt_area : AesKeyBits → List ℕ → List ℕ → List ℕ → ℕ → ℕ → (ℕ → List ℕ) → List ℕ
  pub sha256 : List ℕ → List ℕ

pub record IsAesKey (b : AesKeyBits) (key : List ℕ) : Type 0 where
  pub key_length : length key ≡ bytes b
  pub key_bytes : IsBytes key

-- AES permutes the 16-byte blocks. XTS permutes the sectors of at least one block. The area
-- functions go through their buffer a sector at a time, and the tweak of each sector is that of its
-- own index. A SHA-256 digest has 32 bytes.
pub record IsLawful (p : Primitives) : Type 0 where
  pub encrypt_block-IsBlock :
      (b : AesKeyBits) (k m : List ℕ) → IsAesKey b k → IsBlock m → IsBlock (p.encrypt_block b k m)
  pub decrypt_block-IsBlock :
      (b : AesKeyBits) (k m : List ℕ) → IsAesKey b k → IsBlock m → IsBlock (p.decrypt_block b k m)
  pub decrypt-encrypt_block :
      (b : AesKeyBits) (k m : List ℕ)
      → IsAesKey b k
      → IsBlock m
      → p.decrypt_block b k (p.encrypt_block b k m) ≡ m
  pub encrypt_sector-IsBytes :
      (b : AesKeyBits) (k1 k2 s t : List ℕ)
      → IsAesKey b k1
      → IsAesKey b k2
      → IsBlock t
      → IsBytes s
      → 16 ≤ length s
      → (length (p.encrypt_sector b k1 k2 s t) ≡ length s) × IsBytes (p.encrypt_sector b k1 k2 s t)
  pub decrypt_sector-IsBytes :
      (b : AesKeyBits) (k1 k2 s t : List ℕ)
      → IsAesKey b k1
      → IsAesKey b k2
      → IsBlock t
      → IsBytes s
      → 16 ≤ length s
      → (length (p.decrypt_sector b k1 k2 s t) ≡ length s) × IsBytes (p.decrypt_sector b k1 k2 s t)
  pub decrypt-encrypt_sector :
      (b : AesKeyBits) (k1 k2 s t : List ℕ)
      → IsAesKey b k1
      → IsAesKey b k2
      → IsBlock t
      → IsBytes s
      → 16 ≤ length s
      → p.decrypt_sector b k1 k2 (p.encrypt_sector b k1 k2 s t) t ≡ s
  pub encrypt_area-nil :
      (b : AesKeyBits) (k1 k2 : List ℕ) (size first : ℕ) (tweak : ℕ → List ℕ)
      → p.encrypt_area b k1 k2 [] size first tweak ≡ []
  pub encrypt_area-sector :
      (b : AesKeyBits) (k1 k2 s rest : List ℕ) (size first : ℕ) (tweak : ℕ → List ℕ)
      → 0 < size
      → length s ≡ size
      → p.encrypt_area b k1 k2 (s ++ rest) size first tweak
        ≡ p.encrypt_sector b k1 k2 s (tweak first)
          ++ p.encrypt_area b k1 k2 rest size (first + 1) tweak
  pub decrypt_area-nil :
      (b : AesKeyBits) (k1 k2 : List ℕ) (size first : ℕ) (tweak : ℕ → List ℕ)
      → p.decrypt_area b k1 k2 [] size first tweak ≡ []
  pub decrypt_area-sector :
      (b : AesKeyBits) (k1 k2 s rest : List ℕ) (size first : ℕ) (tweak : ℕ → List ℕ)
      → 0 < size
      → length s ≡ size
      → p.decrypt_area b k1 k2 (s ++ rest) size first tweak
        ≡ p.decrypt_sector b k1 k2 s (tweak first)
          ++ p.decrypt_area b k1 k2 rest size (first + 1) tweak
  pub sha256_digest : (m : List ℕ) → (length (p.sha256 m) ≡ 32) × IsBytes (p.sha256 m)
