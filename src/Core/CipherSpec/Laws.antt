-- ===== src/Core/CipherSpec/Laws.antt =====
-- What `CipherSpec`'s constructors promise to the engine and to the key checks.
use nocap_crypt.Base.{ℕ, ◌≡◌, refl, sym, ◌⊎◌, ◌≢◌, ◌↔◌, some, String, str_eq_iff, arith}
use nocap_crypt.Base.Result.{ok}
use nocap_crypt.Core.CipherSpec.{
  CipherMode, xts_plain64, cbc_essiv_sha256, AesKeyBits, bits128, bits192, bits256, bits, from_bits,
  CipherSpec, parse, with_aes_bits, as_str,
}

-- The specs that the engine can be built for: what `parse` and `with_aes_bits` let through.
abbrev pub IsSupported : CipherSpec → Type 0
IsSupported spec =
    ((spec.mode ≡ xts_plain64) × (spec.aes_bits ≢ bits192))
    ⊎ ((spec.mode ≡ cbc_essiv_sha256) × (spec.aes_bits ≡ bits256))

-- Every spec that `parse` accepts is supported, and prints as the string it was parsed from.
pub parse-ok :
    (s : String) {spec : CipherSpec} → parse s ≡ ok spec → IsSupported spec × (as_str spec ≡ s)
unfolding parse as_str
parse-ok s h = ground (arith, str_eq_iff s "aes-xts-plain64", str_eq_iff s "aes-cbc-essiv:sha256")

-- `parse` reads back what `as_str` prints, with the default key size.
pub parse-as_str :
    (spec : CipherSpec) → parse (as_str spec) ≡ ok (record spec { aes_bits = bits256 })
unfolding parse as_str
parse-as_str spec = go spec.mode spec.aes_bits
  where
    go :
        (m : CipherMode) (b : AesKeyBits)
        → parse (as_str (record { mode = m; aes_bits = b }))
          ≡ ok (record { mode = m; aes_bits = bits256 })
    go xts_plain64 b = refl
    go cbc_essiv_sha256 b = refl

pub from_bits-bits : (b : AesKeyBits) → from_bits (bits b) ≡ some b
unfolding from_bits bits
from_bits-bits bits128 = refl
from_bits-bits bits192 = refl
from_bits-bits bits256 = refl

-- `with_aes_bits` succeeds with a spec exactly when that spec is supported, has the same mode, and
-- has the requested number of bits.
pub with_aes_bits-ok :
    (spec : CipherSpec) (n : ℕ) (out : CipherSpec)
    → (with_aes_bits spec n ≡ ok out)
      ↔ (IsSupported out × (out.mode ≡ spec.mode) × (bits out.aes_bits ≡ n))
unfolding with_aes_bits bits
with_aes_bits-ok spec n out =
    (λ h. ground arith, λ h. back spec.mode spec.aes_bits out.mode out.aes_bits h.0 h.1 h.2)
  where
    Gives : CipherMode → AesKeyBits → CipherMode → AesKeyBits → Type 0
    Gives m c m' b =
        with_aes_bits (record { mode = m; aes_bits = c }) n
        ≡ ok (record { mode = m'; aes_bits = b })

    back :
        (m : CipherMode) (c : AesKeyBits) (m' : CipherMode) (b : AesKeyBits)
        → IsSupported (record { mode = m'; aes_bits = b })
        → m' ≡ m
        → bits b ≡ n
        → Gives m c m' b
    back xts_plain64 c xts_plain64 bits128 sup same size = rw (sym size) refl
    back xts_plain64 c xts_plain64 bits192 sup same size = absurd (ground arith)
    back xts_plain64 c xts_plain64 bits256 sup same size = rw (sym size) refl
    back cbc_essiv_sha256 c cbc_essiv_sha256 bits128 sup same size = absurd (ground arith)
    back cbc_essiv_sha256 c cbc_essiv_sha256 bits192 sup same size = absurd (ground arith)
    back cbc_essiv_sha256 c cbc_essiv_sha256 bits256 sup same size = rw (sym size) refl
    back xts_plain64 c cbc_essiv_sha256 b sup same size = absurd (ground arith)
    back cbc_essiv_sha256 c xts_plain64 b sup same size = absurd (ground arith)
