-- ===== src/Core/Engine/Laws/Ranges.antt =====
-- `encrypt_range` and `decrypt_range` on whole buffers: they undo each other, and a range may be cut
-- between sectors, which is what lets the worker go through a file in any order.
use nocap_crypt.Base.{
  ℕ, ◌+◌, ◌*◌, ◌/◌, ◌%◌, ◌^◌, ◌≡◌, ◌≢◌, ◌↔◌, ap, ◌∙◌, none, some, List, ◌++◌, length, length-append,
  arith,
}
use nocap_crypt.Base.Bytes.{IsBytes, IsU64}
use nocap_crypt.Core.Iv.{sector_size, plain64_iv_injective}
use nocap_crypt.Core.Primitives.{Primitives, IsLawful}
use nocap_crypt.Core.Engine.{SectorEngine, encrypt_range, decrypt_range, tweak_fn}
use nocap_crypt.Core.Engine.Sectors.{sectors, sectors-append, sectors-IsBytes, sectors_inverse}
use nocap_crypt.Core.Engine.Laws.{
  encrypt_one, decrypt_one, encrypt_range-sectors, decrypt_range-sectors,
}
use nocap_crypt.Core.Engine.Laws.Keyed.{IsKeyed, encrypt_one-IsSector, decrypt_one-encrypt_one}

-- A buffer of whole sectors.
abbrev pub IsWhole : List ℕ → Type 0
IsWhole buf = (length buf % sector_size ≡ 0) × IsBytes buf

sector_count : (buf : List ℕ) → length buf % sector_size ≡ 0 → length buf ≡ 512 * (length buf / 512)
sector_count buf h = omega arith

module _ (p : Primitives) (lawful : IsLawful p) (e : SectorEngine) where
  -- Both directions panic exactly on buffers that are not whole sectors.
  pub ranges_panic :
      (first : ℕ) (buf : List ℕ)
      → ((encrypt_range p e first buf ≡ none) ↔ (length buf % sector_size ≢ 0))
        × ((decrypt_range p e first buf ≡ none) ↔ (length buf % sector_size ≢ 0))
  unfolding encrypt_range decrypt_range
  ranges_panic first buf = ground arith

  -- Encrypting two adjoining ranges apart, the second from its own first sector, is encrypting them
  -- together.
  pub encrypt_range-append :
      (first : ℕ) (a b : List ℕ) {x y : List ℕ}
      → length a % sector_size ≡ 0
      → length b % sector_size ≡ 0
      → encrypt_range p e first a ≡ some x
      → encrypt_range p e (first + length a / sector_size) b ≡ some y
      → encrypt_range p e first (a ++ b) ≡ some (x ++ y)
  encrypt_range-append first a b ha hb hx hy =
      let m = length a / 512 in
      let n = length b / 512 in
      encrypt_range-sectors p lawful e (m + n) first (a ++ b) (omega (arith, length-append a b))
      ∙ ap some (sectors-append (encrypt_one p e) m n first a b (sector_count a ha))
      ∙ cc (
        hx,
        hy,
        encrypt_range-sectors p lawful e m first a (sector_count a ha),
        encrypt_range-sectors p lawful e n (first + m) b (sector_count b hb),
      )

  module _ (keyed : IsKeyed e) where
    -- A buffer of whole sectors is encrypted to one of the same length, and decrypting that from
    -- the same first sector gives the buffer back.
    pub decrypt_range-encrypt_range :
        (first : ℕ) (buf : List ℕ)
        → IsWhole buf
        → (out : List ℕ) × (encrypt_range p e first buf ≡ some out)
          × (length out ≡ length buf)
          × IsBytes out
          × (decrypt_range p e first out ≡ some buf)
    decrypt_range-encrypt_range first buf h =
        let n = length buf / 512 in
        let count = sector_count buf h.0 in
        let keeps = λ (j : ℕ) (s : List ℕ). encrypt_one-IsSector p lawful e j s keyed in
        let (len, whole) = sectors-IsBytes (encrypt_one p e) keeps n first buf h.1 (omega arith) in
        (
          sectors (encrypt_one p e) n first buf,
          encrypt_range-sectors p lawful e n first buf count,
          len,
          whole,
          decrypt_range-sectors p lawful e n first _ (len ∙ count)
              ∙ ap some (
                  sectors_inverse (encrypt_one p e) keeps (decrypt_one p e)
                    (λ j s. decrypt_one-encrypt_one p lawful e j s keyed) n first buf h.1
                    (omega arith)),
        )

-- Sectors whose numbers fit 64 bits get different tweaks.
pub tweak_fn_injective : (i j : ℕ) → IsU64 i → IsU64 j → tweak_fn i ≡ tweak_fn j → i ≡ j
unfolding tweak_fn
tweak_fn_injective i j hi hj e =
    let (a, b) = mods in rw (a, b) at (plain64_iv_injective _ _ (omega arith) (omega arith) e)
  where
    mods : (i % 2 ^ 64 ≡ i) × (j % 2 ^ 64 ≡ j)
    mods = omega arith
