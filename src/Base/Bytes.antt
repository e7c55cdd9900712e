-- ===== src/Base/Bytes.antt =====
-- Byte strings: `u8` values as numbers below 256, little-endian words, and the masking of one
-- buffer by another.
use Prim.Native.Nat.{ℕ, zero, suc, ◌+◌, ◌*◌, ◌/◌, ◌%◌, ◌^◌, ◌<◌, bit_xor}
use mathlib.Core.Logic.{◌↔◌}
use mathlib.Core.Bool.{Bool, true, false, ◌&&◌}
use nocap_crypt.Base.Tests.{◌==◌}
use mathlib.Core.Path.{◌≡◌, refl, ap, ap₂}
use mathlib.Core.List.{List, [], ◌∷◌, ◌++◌}
use native.Mathlib.Omega.{arith}
use native.Mathlib.Nat.{pow-suc}
use nocap_crypt.Base.Lists.{length, take, drop, replicate}
use nocap_crypt.Base.Bits.{bit_xor_cancel, bit_xor-lt_pow}

abbrev pub IsByte : ℕ → Type 0
IsByte b = b < 256

abbrev pub IsU64 : ℕ → Type 0
IsU64 n = n < 2 ^ 64

-- A buffer of `u8`s.
abbrev pub IsBytes : List ℕ → Type 0
IsBytes [] = Unit {0}
IsBytes (b ∷ bs) = IsByte b × IsBytes bs

pub append-IsBytes : (xs ys : List ℕ) → IsBytes xs → IsBytes ys → IsBytes (xs ++ ys)
append-IsBytes [] ys h k = k
append-IsBytes (x ∷ xs) ys h k = (h.0, append-IsBytes xs ys h.1 k)

pub take-IsBytes : (n : ℕ) (xs : List ℕ) → IsBytes xs → IsBytes (take n xs)
take-IsBytes zero xs h = tt
take-IsBytes (suc n) [] h = tt
take-IsBytes (suc n) (x ∷ xs) h = (h.0, take-IsBytes n xs h.1)

pub drop-IsBytes : (n : ℕ) (xs : List ℕ) → IsBytes xs → IsBytes (drop n xs)
drop-IsBytes zero xs h = h
drop-IsBytes (suc n) [] h = tt
drop-IsBytes (suc n) (x ∷ xs) h = drop-IsBytes n xs h.1

pub zeros-IsBytes : (n : ℕ) → IsBytes (replicate n 0)
zeros-IsBytes zero = tt
zeros-IsBytes (suc n) = (omega arith, zeros-IsBytes n)

-- `to_le_bytes` of a word of `k` bytes.
abbrev pub le_bytes : ℕ → ℕ → List ℕ
le_bytes zero n = []
le_bytes (suc k) n = n % 256 ∷ le_bytes k (n / 256)

unfoldable pub le_value : List ℕ → ℕ
le_value [] = 0
le_value (b ∷ bs) = b + 256 * le_value bs

pub length-le_bytes : (k n : ℕ) → length (le_bytes k n) ≡ k
length-le_bytes zero n = refl
length-le_bytes (suc k) n = ap suc (length-le_bytes k (n / 256))

pub le_bytes-IsBytes : (k n : ℕ) → IsBytes (le_bytes k n)
le_bytes-IsBytes zero n = tt
le_bytes-IsBytes (suc k) n = (omega arith, le_bytes-IsBytes k (n / 256))

pub le_value-le_bytes : (k n : ℕ) → n < 256 ^ k → le_value (le_bytes k n) ≡ n
unfolding le_value
le_value-le_bytes zero n h = omega arith
le_value-le_bytes (suc k) n h =
    omega (arith, pow-suc 256 k, le_value-le_bytes k (n / 256) (omega (arith, pow-suc 256 k)))

-- `for (b, p) in block.iter_mut().zip(prev) { *b ^= p; }`: bytes past the end of `prev` stay.
unfoldable pub xor_bytes : List ℕ → List ℕ → List ℕ
xor_bytes [] ps = []
xor_bytes (b ∷ bs) [] = b ∷ bs
xor_bytes (b ∷ bs) (p ∷ ps) = bit_xor b p ∷ xor_bytes bs ps

pub xor_bytes_cancel : (bs ps : List ℕ) → xor_bytes (xor_bytes bs ps) ps ≡ bs
unfolding xor_bytes
xor_bytes_cancel [] ps = refl
xor_bytes_cancel (b ∷ bs) [] = refl
xor_bytes_cancel (b ∷ bs) (p ∷ ps) = ap₂ ◌∷◌ (bit_xor_cancel b p) (xor_bytes_cancel bs ps)

pub length-xor_bytes : (bs ps : List ℕ) → length (xor_bytes bs ps) ≡ length bs
unfolding xor_bytes
length-xor_bytes [] ps = refl
length-xor_bytes (b ∷ bs) [] = refl
length-xor_bytes (b ∷ bs) (p ∷ ps) = ap suc (length-xor_bytes bs ps)

pub xor_bytes-IsBytes : (bs ps : List ℕ) → IsBytes bs → IsBytes ps → IsBytes (xor_bytes bs ps)
unfolding xor_bytes
xor_bytes-IsBytes [] ps h k = tt
xor_bytes-IsBytes (b ∷ bs) [] h k = h
xor_bytes-IsBytes (b ∷ bs) (p ∷ ps) h k =
    (bit_xor-lt_pow 8 b p h.0 k.0, xor_bytes-IsBytes bs ps h.1 k.1)

-- `==` on byte slices.
abbrev pub bytes_eq : List ℕ → List ℕ → Bool
bytes_eq [] [] = true
bytes_eq [] (y ∷ ys) = false
bytes_eq (x ∷ xs) [] = false
bytes_eq (x ∷ xs) (y ∷ ys) = x == y && bytes_eq xs ys

pub bytes_eq_iff : (xs ys : List ℕ) → (bytes_eq xs ys ≡ true) ↔ (xs ≡ ys)
bytes_eq_iff [] [] = (λ h. refl, λ h. refl)
bytes_eq_iff [] (y ∷ ys) = (λ h. cc, λ h. cc)
bytes_eq_iff (x ∷ xs) [] = (λ h. cc, λ h. cc)
bytes_eq_iff (x ∷ xs) (y ∷ ys) =
    (λ h. to (bytes_eq_iff xs ys).0 h, λ h. from (bytes_eq_iff xs ys).1 h)
  where
    to : (bytes_eq xs ys ≡ true → xs ≡ ys) → (x == y && bytes_eq xs ys) ≡ true → x ∷ xs ≡ y ∷ ys
    to same h =
        let both : (x ≡ y) × (bytes_eq xs ys ≡ true) = ground arith in ap₂ ◌∷◌ both.0 (same both.1)

    from : (xs ≡ ys → bytes_eq xs ys ≡ true) → x ∷ xs ≡ y ∷ ys → (x == y && bytes_eq xs ys) ≡ true
    from same h =
        let heads : x ≡ y = cc in let tails : xs ≡ ys = cc in let rest = same tails in ground arith
