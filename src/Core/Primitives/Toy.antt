-- ===== src/Core/Primitives/Toy.antt =====
-- Primitives that meet the promises: XOR ciphers. They show that the laws can hold, and run.
use nocap_crypt.Base.{
  ℕ, zero, suc, ◌+◌, ◌≤◌, ◌<◌, ◌≡◌, refl, ap, ap₂, ◌∙◌, List, [], ◌∷◌, ◌++◌, length, take, drop,
  replicate, length-drop, take-append_self, drop-append_self, length-append, arith,
}
use nocap_crypt.Base.Bytes.{
  IsBytes, xor_bytes, xor_bytes_cancel, length-xor_bytes, xor_bytes-IsBytes,
}
use nocap_crypt.Core.Primitives.{Primitives, IsLawful}

-- The buffer in pieces of `size`, each through `f` with its own tweak.
unfoldable pub pieces : (List ℕ → List ℕ → List ℕ) → ℕ → List ℕ → ℕ → ℕ → (ℕ → List ℕ) → List ℕ
pieces f fuel [] size first tweak = []
pieces f zero (x ∷ xs) size first tweak = []
pieces f (suc fuel) (x ∷ xs) size first tweak =
    f (take size (x ∷ xs)) (tweak first)
    ++ pieces f fuel (drop size (x ∷ xs)) size (first + 1) tweak

module _ (f : List ℕ → List ℕ → List ℕ) (size : ℕ) (tweak : ℕ → List ℕ) where
  pieces_fuel :
      (n m : ℕ) (buf : List ℕ) (first : ℕ)
      → 0 < size
      → length buf ≤ n
      → length buf ≤ m
      → pieces f n buf size first tweak ≡ pieces f m buf size first tweak
  unfolding pieces
  pieces_fuel zero zero [] first pos h k = refl
  pieces_fuel zero (suc m) [] first pos h k = refl
  pieces_fuel (suc n) zero [] first pos h k = refl
  pieces_fuel (suc n) (suc m) [] first pos h k = refl
  pieces_fuel zero m (x ∷ xs) first pos h k = absurd (omega arith)
  pieces_fuel (suc n) zero (x ∷ xs) first pos h k = absurd (omega arith)
  pieces_fuel (suc n) (suc m) (x ∷ xs) first pos h k =
      ap (λ t. f (take size (x ∷ xs)) (tweak first) ++ t)
        (pieces_fuel n m (drop size (x ∷ xs)) (first + 1) pos
          (omega (arith, length-drop size (x ∷ xs))) (omega (arith, length-drop size (x ∷ xs))))

  pieces-sector :
      (s rest : List ℕ) (first : ℕ)
      → 0 < size
      → length s ≡ size
      → pieces f (length (s ++ rest)) (s ++ rest) size first tweak
        ≡ f s (tweak first) ++ pieces f (length rest) rest size (first + 1) tweak
  unfolding pieces
  pieces-sector [] rest first pos h = absurd (omega arith)
  pieces-sector (x ∷ xs) rest first pos h =
      ap₂ (λ a b. f a (tweak first) ++ b) (take-append_self size (x ∷ xs) rest h)
        (ap (λ b. pieces f (length (xs ++ rest)) b size (first + 1) tweak)
            (drop-append_self size (x ∷ xs) rest h)
          ∙ pieces_fuel (length (xs ++ rest)) (length rest) rest (first + 1) pos
              (omega (arith, length-append xs rest)) (omega arith))

abbrev xor_area : (List ℕ → List ℕ → List ℕ) → List ℕ → ℕ → ℕ → (ℕ → List ℕ) → List ℕ
xor_area f area size first tweak = pieces f (length area) area size first tweak

-- A block is masked with the key, a sector with its tweak; a digest is 32 constant
-- bytes.
unfoldable pub toy : Primitives
unfolding pieces xor_bytes
toy = record {
  encrypt_block = λ b k m. xor_bytes m k;
  decrypt_block = λ b k m. xor_bytes m k;
  encrypt_sector = λ b k1 k2 s t. xor_bytes s t;
  decrypt_sector = λ b k1 k2 s t. xor_bytes s t;
  encrypt_area = λ b k1 k2. xor_area xor_bytes;
  decrypt_area = λ b k1 k2. xor_area xor_bytes;
  sha256 = λ m. replicate 32 0x5a;
}

constant-IsBytes : (n : ℕ) → IsBytes (replicate n 0x5a)
constant-IsBytes zero = tt
constant-IsBytes (suc n) = (omega arith, constant-IsBytes n)

pub toy-IsLawful : IsLawful toy
unfolding toy pieces
toy-IsLawful = record {
  encrypt_block-IsBlock =
      λ b k m hk hm. (length-xor_bytes m k ∙ hm.0, xor_bytes-IsBytes m k hm.1 hk.key_bytes);
  decrypt_block-IsBlock =
      λ b k m hk hm. (length-xor_bytes m k ∙ hm.0, xor_bytes-IsBytes m k hm.1 hk.key_bytes);
  decrypt-encrypt_block = λ b k m hk hm. xor_bytes_cancel m k;
  encrypt_sector-IsBytes =
      λ b k1 k2 s t h1 h2 ht hs hl. (length-xor_bytes s t, xor_bytes-IsBytes s t hs ht.1);
  decrypt_sector-IsBytes =
      λ b k1 k2 s t h1 h2 ht hs hl. (length-xor_bytes s t, xor_bytes-IsBytes s t hs ht.1);
  decrypt-encrypt_sector = λ b k1 k2 s t h1 h2 ht hs hl. xor_bytes_cancel s t;
  encrypt_area-nil = λ b k1 k2 size first tweak. refl;
  encrypt_area-sector = λ b k1 k2 s rest size first tweak pos h.
      pieces-sector xor_bytes size tweak s rest first pos h;
  decrypt_area-nil = λ b k1 k2 size first tweak. refl;
  decrypt_area-sector = λ b k1 k2 s rest size first tweak pos h.
      pieces-sector xor_bytes size tweak s rest first pos h;
  sha256_digest = λ m. (refl, constant-IsBytes 32);
}
