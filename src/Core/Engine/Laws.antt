-- ===== src/Core/Engine/Laws.antt =====
-- The engine as a function of each sector's index and bytes, for both cipher modes.
pub mod Keyed
pub mod Ranges
use nocap_crypt.Base.{
  ℕ, zero, suc, ◌+◌, ◌-◌, ◌*◌, ◌/◌, ◌%◌, ◌^◌, ◌≤◌, ◌≡◌, refl, sym, ap, ap₂, ◌∙◌, true, false,
  Option, some, List, [], ◌∷◌, ◌++◌, length, take, drop, length-drop, length-take, take-append-drop,
  arith, ◌==◌,
}
use nocap_crypt.Core.CipherSpec.{AesKeyBits, bits128, bits192, bits256}
use nocap_crypt.Core.Iv.{sector_size, plain64_iv}
use nocap_crypt.Core.Primitives.{Primitives, IsLawful}
use nocap_crypt.Core.Engine.{
  XtsVariant, aes128, aes192, aes256, CbcEssivVariant, SectorEngine, xts, cbc_essiv, tweak_fn,
  cbc_essiv_sector, cbc_essiv_loop, cbc_essiv_crypt_range, xts_encrypt_area, xts_decrypt_area,
  encrypt_range, decrypt_range,
}
use nocap_crypt.Core.Engine.Sectors.{sectors}

-- The AES size and the two keys of an XTS variant.
abbrev pub variant_bits : XtsVariant → AesKeyBits
variant_bits (aes128 k1 k2) = bits128
variant_bits (aes192 k1 k2) = bits192
variant_bits (aes256 k1 k2) = bits256

abbrev pub data_key : XtsVariant → List ℕ
data_key (aes128 k1 k2) = k1
data_key (aes192 k1 k2) = k1
data_key (aes256 k1 k2) = k1

abbrev pub tweak_key : XtsVariant → List ℕ
tweak_key (aes128 k1 k2) = k2
tweak_key (aes192 k1 k2) = k2
tweak_key (aes256 k1 k2) = k2

-- The `assert_eq!` of both range functions passes on whole sectors.
whole : (buf : List ℕ) (n : ℕ) → length buf ≡ sector_size * n → (length buf % 512 == 0) ≡ true
whole buf n h = ground arith

module _ (p : Primitives) where
  -- What the engine does to the sector of index `j`, whose number wraps at 64 bits.
  unfoldable pub encrypt_one : SectorEngine → ℕ → List ℕ → List ℕ
  encrypt_one (xts v) j s =
      p.encrypt_sector (variant_bits v) (data_key v) (tweak_key v) s (plain64_iv (j % 2 ^ 64))
  encrypt_one (cbc_essiv v) j s = cbc_essiv_sector p v (j % 2 ^ 64) s true

  unfoldable pub decrypt_one : SectorEngine → ℕ → List ℕ → List ℕ
  decrypt_one (xts v) j s =
      p.decrypt_sector (variant_bits v) (data_key v) (tweak_key v) s (plain64_iv (j % 2 ^ 64))
  decrypt_one (cbc_essiv v) j s = cbc_essiv_sector p v (j % 2 ^ 64) s false

  cbc_essiv_loop-sectors :
      (v : CbcEssivVariant) (first s n i : ℕ) (buf : List ℕ)
      → first + s ≡ i
      → cbc_essiv_loop p v first s n buf true ≡ sectors (encrypt_one (cbc_essiv v)) n i buf
  unfolding cbc_essiv_loop sectors encrypt_one
  cbc_essiv_loop-sectors v first s zero i buf e = refl
  cbc_essiv_loop-sectors v first s (suc n) i buf e =
      ap₂ (λ j t. cbc_essiv_sector p v (j % 2 ^ 64) (take 512 buf) true ++ t) e
        (cbc_essiv_loop-sectors v first (s + 1) n (i + 1) (drop 512 buf) (omega arith))

  cbc_essiv_loop-sectors_back :
      (v : CbcEssivVariant) (first s n i : ℕ) (buf : List ℕ)
      → first + s ≡ i
      → cbc_essiv_loop p v first s n buf false ≡ sectors (decrypt_one (cbc_essiv v)) n i buf
  unfolding cbc_essiv_loop sectors decrypt_one
  cbc_essiv_loop-sectors_back v first s zero i buf e = refl
  cbc_essiv_loop-sectors_back v first s (suc n) i buf e =
      ap₂ (λ j t. cbc_essiv_sector p v (j % 2 ^ 64) (take 512 buf) false ++ t) e
        (cbc_essiv_loop-sectors_back v first (s + 1) n (i + 1) (drop 512 buf) (omega arith))

  cbc_essiv_crypt_range-sectors :
      (v : CbcEssivVariant) (n first : ℕ) (buf : List ℕ)
      → length buf ≡ sector_size * n
      → cbc_essiv_crypt_range p v first buf true ≡ sectors (encrypt_one (cbc_essiv v)) n first buf
  unfolding cbc_essiv_crypt_range
  cbc_essiv_crypt_range-sectors v n first buf h =
      let count : length buf / 512 ≡ n = omega arith in
      rw count (cbc_essiv_loop-sectors v first 0 n first buf (omega arith))

  cbc_essiv_crypt_range-sectors_back :
      (v : CbcEssivVariant) (n first : ℕ) (buf : List ℕ)
      → length buf ≡ sector_size * n
      → cbc_essiv_crypt_range p v first buf false ≡ sectors (decrypt_one (cbc_essiv v)) n first buf
  unfolding cbc_essiv_crypt_range
  cbc_essiv_crypt_range-sectors_back v n first buf h =
      let count : length buf / 512 ≡ n = omega arith in
      rw count (cbc_essiv_loop-sectors_back v first 0 n first buf (omega arith))

  module _ (lawful : IsLawful p) where
    area-sectors :
        (v : XtsVariant) (n i : ℕ) (buf : List ℕ)
        → length buf ≡ sector_size * n
        → p.encrypt_area (variant_bits v) (data_key v) (tweak_key v) buf sector_size i tweak_fn
          ≡ sectors (encrypt_one (xts v)) n i buf
    unfolding sectors encrypt_one tweak_fn
    area-sectors v zero i [] h = lawful.encrypt_area-nil _ _ _ _ _ _
    area-sectors v zero i (x ∷ xs) h = absurd (omega arith)
    area-sectors v (suc n) i buf h =
        ap (λ b. p.encrypt_area (variant_bits v) (data_key v) (tweak_key v) b 512 i tweak_fn)
          (sym (take-append-drop 512 buf))
        ∙ lawful.encrypt_area-sector (variant_bits v) (data_key v) (tweak_key v) (take 512 buf)
            (drop 512 buf) 512 i tweak_fn (omega arith) (omega (arith, length-take 512 buf))
        ∙ ap (λ t. encrypt_one (xts v) i (take 512 buf) ++ t)
            (area-sectors v n (i + 1) (drop 512 buf) (omega (arith, length-drop 512 buf)))

    area-sectors_back :
        (v : XtsVariant) (n i : ℕ) (buf : List ℕ)
        → length buf ≡ sector_size * n
        → p.decrypt_area (variant_bits v) (data_key v) (tweak_key v) buf sector_size i tweak_fn
          ≡ sectors (decrypt_one (xts v)) n i buf
    unfolding sectors decrypt_one tweak_fn
    area-sectors_back v zero i [] h = lawful.decrypt_area-nil _ _ _ _ _ _
    area-sectors_back v zero i (x ∷ xs) h = absurd (omega arith)
    area-sectors_back v (suc n) i buf h =
        ap (λ b. p.decrypt_area (variant_bits v) (data_key v) (tweak_key v) b 512 i tweak_fn)
          (sym (take-append-drop 512 buf))
        ∙ lawful.decrypt_area-sector (variant_bits v) (data_key v) (tweak_key v) (take 512 buf)
            (drop 512 buf) 512 i tweak_fn (omega arith) (omega (arith, length-take 512 buf))
        ∙ ap (λ t. decrypt_one (xts v) i (take 512 buf) ++ t)
            (area-sectors_back v n (i + 1) (drop 512 buf) (omega (arith, length-drop 512 buf)))

    xts_encrypt_area-sectors :
        (v : XtsVariant) (n first : ℕ) (buf : List ℕ)
        → length buf ≡ sector_size * n
        → xts_encrypt_area p v first buf ≡ sectors (encrypt_one (xts v)) n first buf
    unfolding xts_encrypt_area
    xts_encrypt_area-sectors (aes128 k1 k2) n first buf h =
        area-sectors (aes128 k1 k2) n first buf h
    xts_encrypt_area-sectors (aes192 k1 k2) n first buf h =
        area-sectors (aes192 k1 k2) n first buf h
    xts_encrypt_area-sectors (aes256 k1 k2) n first buf h =
        area-sectors (aes256 k1 k2) n first buf h

    -- `encrypt_range` does not panic on whole sectors, and goes through them one by one.
    pub encrypt_range-sectors :
        (engine : SectorEngine) (n first : ℕ) (buf : List ℕ)
        → length buf ≡ sector_size * n
        → encrypt_range p engine first buf ≡ some (sectors (encrypt_one engine) n first buf)
    unfolding encrypt_range
    encrypt_range-sectors (xts v) n first buf h =
        rw (whole buf n h) (ap some (xts_encrypt_area-sectors v n first buf h))
    encrypt_range-sectors (cbc_essiv v) n first buf h =
        rw (whole buf n h) (ap some (cbc_essiv_crypt_range-sectors v n first buf h))

    xts_decrypt_area-sectors :
        (v : XtsVariant) (n first : ℕ) (buf : List ℕ)
        → length buf ≡ sector_size * n
        → xts_decrypt_area p v first buf ≡ sectors (decrypt_one (xts v)) n first buf
    unfolding xts_decrypt_area
    xts_decrypt_area-sectors (aes128 k1 k2) n first buf h =
        area-sectors_back (aes128 k1 k2) n first buf h
    xts_decrypt_area-sectors (aes192 k1 k2) n first buf h =
        area-sectors_back (aes192 k1 k2) n first buf h
    xts_decrypt_area-sectors (aes256 k1 k2) n first buf h =
        area-sectors_back (aes256 k1 k2) n first buf h

    pub decrypt_range-sectors :
        (engine : SectorEngine) (n first : ℕ) (buf : List ℕ)
        → length buf ≡ sector_size * n
        → decrypt_range p engine first buf ≡ some (sectors (decrypt_one engine) n first buf)
    unfolding decrypt_range
    decrypt_range-sectors (xts v) n first buf h =
        rw (whole buf n h) (ap some (xts_decrypt_area-sectors v n first buf h))
    decrypt_range-sectors (cbc_essiv v) n first buf h =
        rw (whole buf n h) (ap some (cbc_essiv_crypt_range-sectors_back v n first buf h))
