-- ===== src/Core/Engine/Laws/Keyed.antt =====
-- `SectorEngine::new`: which keys it takes, and what the engine's sectors keep and undo.
use nocap_crypt.Base.{
  ℕ, ◌*◌, ◌/◌, ◌%◌, ◌^◌, ◌≡◌, ◌≢◌, ◌∙◌, List, length, take, drop, length-take, length-drop, arith,
}
use nocap_crypt.Base.Bytes.{IsBytes, take-IsBytes, drop-IsBytes}
use nocap_crypt.Base.Result.{ok, err, failed, panicked}
use nocap_crypt.Core.CipherSpec.{
  CipherMode, xts_plain64, cbc_essiv_sha256, AesKeyBits, bits128, bits192, bits256, bytes,
  CipherSpec, required_key_bytes,
}
use nocap_crypt.Core.CipherSpec.Laws.{IsSupported}
use nocap_crypt.Core.Iv.{plain64_iv, plain64_iv-IsBlock}
use nocap_crypt.Core.Primitives.{Primitives, IsLawful, IsAesKey}
use nocap_crypt.Core.Engine.{
  wrong_length, main_essiv, SectorEngine, xts, cbc_essiv, xts_variant, new, cbc_essiv_sector,
}
use nocap_crypt.Core.Engine.Cbc.{
  IsCipher, cbc_encrypt_blocks-IsBytes, cbc_decrypt_blocks-IsBytes, cbc_blocks_inverse,
}
use nocap_crypt.Core.Engine.Sectors.{IsSector}
use nocap_crypt.Core.Engine.Laws.{variant_bits, data_key, tweak_key, encrypt_one, decrypt_one}

-- Each key of the engine has the length of its cipher.
abbrev pub IsKeyed : SectorEngine → Type 0
IsKeyed (xts v) = IsAesKey (variant_bits v) (data_key v) × IsAesKey (variant_bits v) (tweak_key v)
IsKeyed (cbc_essiv (main_essiv main essiv)) = IsAesKey bits256 main × IsAesKey bits256 essiv

-- The two halves of an XTS key.
halves :
    (b : AesKeyBits) (key : List ℕ)
    → IsBytes key
    → length key ≡ bytes b * 2
    → IsAesKey b (take (length key / 2) key) × IsAesKey b (drop (length key / 2) key)
halves b key hb h = (
  record {
    key_length = omega (arith, length-take (length key / 2) key);
    key_bytes = take-IsBytes _ key hb;
  },
  record {
    key_length = omega (arith, length-drop (length key / 2) key);
    key_bytes = drop-IsBytes _ key hb;
  },
)

xts_variant-IsKeyed :
    (b : AesKeyBits) (k1 k2 : List ℕ)
    → IsAesKey b k1
    → IsAesKey b k2
    → IsKeyed (xts (xts_variant b k1 k2))
unfolding xts_variant
xts_variant-IsKeyed bits128 k1 k2 h1 h2 = (h1, h2)
xts_variant-IsKeyed bits192 k1 k2 h1 h2 = (h1, h2)
xts_variant-IsKeyed bits256 k1 k2 h1 h2 = (h1, h2)

-- Whatever the key, `new` does not panic for a supported spec.
pub new-no_panic :
    (p : Primitives) (spec : CipherSpec) (key : List ℕ)
    → IsSupported spec
    → new p spec key ≢ err panicked
unfolding new
new-no_panic p spec key sup r = ground arith

module _ (p : Primitives) (lawful : IsLawful p) where
  -- A supported spec and a key of the required length give a keyed engine: no panic, no error.
  pub new-ok :
      (spec : CipherSpec) (key : List ℕ)
      → IsSupported spec
      → IsBytes key
      → length key ≡ required_key_bytes spec
      → (e : SectorEngine) × (new p spec key ≡ ok e) × IsKeyed e
  new-ok spec key sup hb h = go spec.mode spec.aes_bits sup h
    where
      Built : CipherMode → AesKeyBits → Type 0
      Built m b =
          let spec : CipherSpec = record { mode = m; aes_bits = b } in
          (e : SectorEngine) × (new p spec key ≡ ok e) × IsKeyed e

      go :
          (m : CipherMode) (b : AesKeyBits)
          → IsSupported (record { mode = m; aes_bits = b })
          → length key ≡ required_key_bytes (record { mode = m; aes_bits = b })
          → Built m b
      go xts_plain64 b sup h =
          let (h1, h2) = halves b key hb (unfold required_key_bytes in h) in
          (
            xts (xts_variant b (take (length key / 2) key) (drop (length key / 2) key)),
            unfold new in ground arith,
            xts_variant-IsKeyed b _ _ h1 h2,
          )
      go cbc_essiv_sha256 bits256 sup h =
          let (len, whole) = lawful.sha256_digest key in
          (
            cbc_essiv (main_essiv key (p.sha256 key)),
            unfold new in ground arith,
            (
              record { key_length = unfold required_key_bytes in h; key_bytes = hb },
              record { key_length = unfold bytes in len; key_bytes = whole },
            ),
          )
      go cbc_essiv_sha256 bits128 sup h = absurd (ground arith)
      go cbc_essiv_sha256 bits192 sup h = absurd (ground arith)

  -- `new` refuses a key of any other length than the required one, with an error that has both
  -- lengths.
  pub new-wrong_length :
      (spec : CipherSpec) (key : List ℕ)
      → length key ≢ required_key_bytes spec
      → new p spec key ≡ err (failed (wrong_length (required_key_bytes spec) (length key)))
  unfolding new
  new-wrong_length spec key h = ground arith

  block-IsCipher :
      (b : AesKeyBits) (key : List ℕ)
      → IsAesKey b key
      → IsCipher (p.encrypt_block b key) (p.decrypt_block b key)
  block-IsCipher b key hk = record {
    encrypt_block = λ m. lawful.encrypt_block-IsBlock b key m hk;
    decrypt_block = λ m. lawful.decrypt_block-IsBlock b key m hk;
    inverse = λ m. lawful.decrypt-encrypt_block b key m hk;
  }

  -- A keyed engine keeps the shape of a sector, both ways.
  pub encrypt_one-IsSector :
      (e : SectorEngine) (j : ℕ) (s : List ℕ)
      → IsKeyed e
      → IsSector s
      → IsSector (encrypt_one p e j s)
  unfolding encrypt_one cbc_essiv_sector
  encrypt_one-IsSector (xts v) j s hk hs =
      let (len, whole) =
        lawful.encrypt_sector-IsBytes (variant_bits v) (data_key v) (tweak_key v) s
          (plain64_iv (j % 2 ^ 64)) hk.0 hk.1 (plain64_iv-IsBlock _) hs.1 (omega arith) in
      (len ∙ hs.0, whole)
  encrypt_one-IsSector (cbc_essiv (main_essiv main essiv)) j s hk hs =
      let (len, whole) =
        cbc_encrypt_blocks-IsBytes (p.encrypt_block bits256 main) (p.decrypt_block bits256 main)
          (block-IsCipher bits256 main hk.0)
          (p.encrypt_block bits256 essiv (plain64_iv (j % 2 ^ 64))) s
          ((block-IsCipher bits256 essiv hk.1).encrypt_block _ (plain64_iv-IsBlock _)) hs.1 in
      (len ∙ hs.0, whole)

  pub decrypt_one-IsSector :
      (e : SectorEngine) (j : ℕ) (s : List ℕ)
      → IsKeyed e
      → IsSector s
      → IsSector (decrypt_one p e j s)
  unfolding decrypt_one cbc_essiv_sector
  decrypt_one-IsSector (xts v) j s hk hs =
      let (len, whole) =
        lawful.decrypt_sector-IsBytes (variant_bits v) (data_key v) (tweak_key v) s
          (plain64_iv (j % 2 ^ 64)) hk.0 hk.1 (plain64_iv-IsBlock _) hs.1 (omega arith) in
      (len ∙ hs.0, whole)
  decrypt_one-IsSector (cbc_essiv (main_essiv main essiv)) j s hk hs =
      let (len, whole) =
        cbc_decrypt_blocks-IsBytes (p.encrypt_block bits256 main) (p.decrypt_block bits256 main)
          (block-IsCipher bits256 main hk.0)
          (p.encrypt_block bits256 essiv (plain64_iv (j % 2 ^ 64))) s
          ((block-IsCipher bits256 essiv hk.1).encrypt_block _ (plain64_iv-IsBlock _)) hs.1 in
      (len ∙ hs.0, whole)

  -- Decrypting a sector under its own index undoes its encryption.
  pub decrypt_one-encrypt_one :
      (e : SectorEngine) (j : ℕ) (s : List ℕ)
      → IsKeyed e
      → IsSector s
      → decrypt_one p e j (encrypt_one p e j s) ≡ s
  unfolding encrypt_one decrypt_one cbc_essiv_sector
  decrypt_one-encrypt_one (xts v) j s hk hs =
      lawful.decrypt-encrypt_sector (variant_bits v) (data_key v) (tweak_key v) s
        (plain64_iv (j % 2 ^ 64)) hk.0 hk.1 (plain64_iv-IsBlock _) hs.1 (omega arith)
  decrypt_one-encrypt_one (cbc_essiv (main_essiv main essiv)) j s hk hs =
      cbc_blocks_inverse (p.encrypt_block bits256 main) (p.decrypt_block bits256 main)
        (block-IsCipher bits256 main hk.0) (p.encrypt_block bits256 essiv (plain64_iv (j % 2 ^ 64)))
        s ((block-IsCipher bits256 essiv hk.1).encrypt_block _ (plain64_iv-IsBlock _)) hs.1
