-- ===== src/Core/Tests.antt =====
-- The theorems on specs, keys and the engine at work, over the toy primitives.
use nocap_crypt.Base.{
  ℕ, zero, suc, ◌%◌, ◌≡◌, ◌≢◌, ◌↔◌, inl, refl, none, some, List, [], ◌∷◌, ◌++◌, length, replicate,
  arith,
}
use nocap_crypt.Base.Bytes.{IsByte, IsBytes, xor_bytes}
use nocap_crypt.Core.Iv.{plain64_iv}
use nocap_crypt.Base.Result.{ok, err, failed}
use nocap_crypt.Core.CipherSpec.{
  xts_plain64, bits128, bits192, bits256, bits, bytes, CipherSpec, parse, as_str, with_aes_bits,
  required_key_bytes,
}
use nocap_crypt.Core.CipherSpec.Laws.{IsSupported, parse-ok, parse-as_str, with_aes_bits-ok}
use nocap_crypt.Core.Primitives.{IsAesKey}
use nocap_crypt.Core.Primitives.Toy.{toy, toy-IsLawful, pieces}
use nocap_crypt.Core.Engine.{
  SectorEngine, xts, aes256, xts_encrypt_area, wrong_length, cbc_essiv, main_essiv, new, tweak_fn,
  encrypt_range, decrypt_range,
}
use nocap_crypt.Core.Engine.Laws.Keyed.{IsKeyed, new-ok, new-wrong_length}
use nocap_crypt.Core.Engine.Laws.Ranges.{
  ranges_panic, encrypt_range-append, decrypt_range-encrypt_range, tweak_fn_injective,
}

mask : (n : ℕ) (b : ℕ) → IsByte b → IsBytes (replicate n b)
mask zero b h = tt
mask (suc n) b h = (h, mask n b h)

abbrev key32 : ℕ → List ℕ
key32 b = replicate 32 b

key : (b : ℕ) → IsByte b → IsAesKey bits256 (key32 b)
unfolding bytes
key b h = record { key_length = refl; key_bytes = mask 32 b h }

abbrev engine : SectorEngine
engine = cbc_essiv (main_essiv (key32 1) (key32 2))

keyed : IsKeyed engine
keyed = (key 1 (omega arith), key 2 (omega arith))

abbrev sector : List ℕ
sector = replicate 512 7

abbrev xts128 : CipherSpec
xts128 = record { mode = xts_plain64; aes_bits = bits128 }

decrypt_range-encrypt_range_example :
    (out : List ℕ) × (encrypt_range toy engine 5 sector ≡ some out)
    × (length out ≡ length sector)
    × IsBytes out
    × (decrypt_range toy engine 5 out ≡ some sector)
decrypt_range-encrypt_range_example =
    decrypt_range-encrypt_range toy toy-IsLawful engine keyed 5 sector
      (refl, mask 512 7 (omega arith))

cut_buffer_panics :
    ((encrypt_range toy engine 0 (1 ∷ []) ≡ none) ↔ (1 % 512 ≢ 0))
    × ((decrypt_range toy engine 0 (1 ∷ []) ≡ none) ↔ (1 % 512 ≢ 0))
cut_buffer_panics = ranges_panic toy toy-IsLawful engine 0 (1 ∷ [])

tweak_fn_injective_example : ◌≡◌ {A = ℕ} 3 3
tweak_fn_injective_example = tweak_fn_injective 3 3 (omega arith) (omega arith) refl

new-ok_example : (e : SectorEngine) × (new toy xts128 (key32 1) ≡ ok e) × IsKeyed e
unfolding required_key_bytes bytes
new-ok_example =
    new-ok toy toy-IsLawful xts128 (key32 1) (inl (refl, sized)) (mask 32 1 (omega arith)) size
  where
    sized : bits128 ≢ bits192
    sized e = cc

    size : 32 ≡ required_key_bytes xts128
    size = refl

short_key_is_refused :
    new toy xts128 (1 ∷ []) ≡ err (failed (wrong_length (required_key_bytes xts128) 1))
unfolding required_key_bytes bytes
short_key_is_refused = new-wrong_length toy toy-IsLawful xts128 (1 ∷ []) short
  where
    short : 1 ≢ required_key_bytes xts128
    short e = omega arith

xts_parsed : parse "aes-xts-plain64" ≡ ok (record { mode = xts_plain64; aes_bits = bits256 })
unfolding parse
xts_parsed = refl

xts-IsSupported :
    IsSupported (record { mode = xts_plain64; aes_bits = bits256 })
    × (as_str (record { mode = xts_plain64; aes_bits = bits256 }) ≡ "aes-xts-plain64")
xts-IsSupported = parse-ok "aes-xts-plain64" xts_parsed

parsed_again : parse (as_str xts128) ≡ ok (record xts128 { aes_bits = bits256 })
parsed_again = parse-as_str xts128

bits-IsSupported : (with_aes_bits xts128 256 ≡ ok (record xts128 { aes_bits = bits256 })) ↔ (
    IsSupported (record xts128 { aes_bits = bits256 })
    × (xts_plain64 ≡ xts_plain64)
    × (bits bits256 ≡ 256))
bits-IsSupported = with_aes_bits-ok xts128 256 (record xts128 { aes_bits = bits256 })

abbrev masked : SectorEngine
masked = xts (aes256 (key32 1) (key32 2))

first_sector : encrypt_range toy masked 0 sector ≡ some sector
unfolding encrypt_range xts_encrypt_area toy pieces tweak_fn plain64_iv xor_bytes
first_sector = refl

second_sector : encrypt_range toy masked 1 sector ≡ some (6 ∷ replicate 511 7)
unfolding encrypt_range xts_encrypt_area toy pieces tweak_fn plain64_iv xor_bytes
second_sector = refl

encrypt_range-append_example :
    encrypt_range toy masked 0 (sector ++ sector) ≡ some (sector ++ (6 ∷ replicate 511 7))
encrypt_range-append_example =
    encrypt_range-append toy toy-IsLawful masked 0 sector sector refl refl first_sector
      second_sector
