-- ===== src/Core/Engine/Cbc.antt =====
-- CBC over the 16-byte blocks of one sector: decryption undoes encryption, lengths stay.
use nocap_crypt.Base.{
  ℕ, zero, suc, ◌*◌, ◌/◌, ◌≤◌, ◌≡◌, refl, ap, ap₂, ◌∙◌, List, ◌++◌, length, take, drop,
  length-append, length-take, length-drop, take-append_self, drop-append_self, take-append-drop,
  arith,
}
use nocap_crypt.Base.Bytes.{
  IsBytes, append-IsBytes, take-IsBytes, drop-IsBytes, xor_bytes, xor_bytes_cancel,
  length-xor_bytes, xor_bytes-IsBytes,
}
use nocap_crypt.Core.Iv.{IsBlock}
use nocap_crypt.Core.Engine.{
  cbc_encrypt_loop, cbc_decrypt_loop, cbc_encrypt_blocks, cbc_decrypt_blocks,
}

-- What a block cipher keyed with a valid key promises of its two directions.
pub record IsCipher (encrypt decrypt : List ℕ → List ℕ) : Type 0 where
  pub encrypt_block : (m : List ℕ) → IsBlock m → IsBlock (encrypt m)
  pub decrypt_block : (m : List ℕ) → IsBlock m → IsBlock (decrypt m)
  pub inverse : (m : List ℕ) → IsBlock m → decrypt (encrypt m) ≡ m

-- The first block of a buffer that has one.
pub take-IsBlock : (buf : List ℕ) → IsBytes buf → 16 ≤ length buf → IsBlock (take 16 buf)
take-IsBlock buf hb hl = (omega (arith, length-take 16 buf), take-IsBytes 16 buf hb)

pub xor_bytes-IsBlock : (m t : List ℕ) → IsBlock m → IsBlock t → IsBlock (xor_bytes m t)
xor_bytes-IsBlock m t hm ht = (length-xor_bytes m t ∙ hm.0, xor_bytes-IsBytes m t hm.1 ht.1)

module _ (E D : List ℕ → List ℕ) (c : IsCipher E D) where
  -- The block that the encryption loop writes first.
  first-IsBlock :
      (buf prev : List ℕ)
      → IsBytes buf
      → IsBlock prev
      → 16 ≤ length buf
      → IsBlock (E (xor_bytes (take 16 buf) prev))
  first-IsBlock buf prev hb hp hl =
      c.encrypt_block _ (xor_bytes-IsBlock _ prev (take-IsBlock buf hb hl) hp)

  cbc_encrypt_loop-IsBytes :
      (n : ℕ) (prev buf : List ℕ)
      → IsBlock prev
      → IsBytes buf
      → 16 * n ≤ length buf
      → (length (cbc_encrypt_loop E prev n buf) ≡ length buf)
        × IsBytes (cbc_encrypt_loop E prev n buf)
  unfolding cbc_encrypt_loop
  cbc_encrypt_loop-IsBytes zero prev buf hp hb hl = (refl, hb)
  cbc_encrypt_loop-IsBytes (suc n) prev buf hp hb hl =
      let block = E (xor_bytes (take 16 buf) prev) in
      let hblock = first-IsBlock buf prev hb hp (omega arith) in
      let (len, ok) =
        cbc_encrypt_loop-IsBytes n block (drop 16 buf) hblock (drop-IsBytes 16 buf hb)
          (omega (arith, length-drop 16 buf)) in
      (
        omega (
          arith,
          length-append block (cbc_encrypt_loop E block n (drop 16 buf)),
          len,
          hblock.0,
          length-drop 16 buf,
        ),
        append-IsBytes block _ hblock.1 ok,
      )

  cbc_decrypt_loop-IsBytes :
      (n : ℕ) (prev buf : List ℕ)
      → IsBlock prev
      → IsBytes buf
      → 16 * n ≤ length buf
      → (length (cbc_decrypt_loop D prev n buf) ≡ length buf)
        × IsBytes (cbc_decrypt_loop D prev n buf)
  unfolding cbc_decrypt_loop
  cbc_decrypt_loop-IsBytes zero prev buf hp hb hl = (refl, hb)
  cbc_decrypt_loop-IsBytes (suc n) prev buf hp hb hl =
      let htake = take-IsBlock buf hb (omega arith) in
      let block = xor_bytes (D (take 16 buf)) prev in
      let hblock = xor_bytes-IsBlock (D (take 16 buf)) prev (c.decrypt_block _ htake) hp in
      let (len, ok) =
        cbc_decrypt_loop-IsBytes n (take 16 buf) (drop 16 buf) htake (drop-IsBytes 16 buf hb)
          (omega (arith, length-drop 16 buf)) in
      (
        omega (
          arith,
          length-append block (cbc_decrypt_loop D (take 16 buf) n (drop 16 buf)),
          len,
          hblock.0,
          length-drop 16 buf,
        ),
        append-IsBytes block _ hblock.1 ok,
      )

  -- One round of decryption on a block that is in front.
  cbc_decrypt_loop-cons :
      (n : ℕ) (prev block rest : List ℕ)
      → length block ≡ 16
      → cbc_decrypt_loop D prev (suc n) (block ++ rest)
        ≡ xor_bytes (D block) prev ++ cbc_decrypt_loop D block n rest
  unfolding cbc_decrypt_loop
  cbc_decrypt_loop-cons n prev block rest h =
      ap₂ (λ a b. xor_bytes (D a) prev ++ cbc_decrypt_loop D a n b)
        (take-append_self 16 block rest h) (drop-append_self 16 block rest h)

  cbc_loop_inverse :
      (n : ℕ) (prev buf : List ℕ)
      → IsBlock prev
      → IsBytes buf
      → 16 * n ≤ length buf
      → cbc_decrypt_loop D prev n (cbc_encrypt_loop E prev n buf) ≡ buf
  unfolding cbc_encrypt_loop
  cbc_loop_inverse zero prev buf hp hb hl = unfold cbc_decrypt_loop in refl
  cbc_loop_inverse (suc n) prev buf hp hb hl =
      let block = E (xor_bytes (take 16 buf) prev) in
      let hblock = first-IsBlock buf prev hb hp (omega arith) in
      let masked = xor_bytes-IsBlock _ prev (take-IsBlock buf hb (omega arith)) hp in
      cbc_decrypt_loop-cons n prev block _ hblock.0
      ∙ ap₂ ◌++◌
          (ap (λ m. xor_bytes m prev) (c.inverse _ masked) ∙ xor_bytes_cancel (take 16 buf) prev)
          (cbc_loop_inverse n block (drop 16 buf) hblock (drop-IsBytes 16 buf hb)
            (omega (arith, length-drop 16 buf)))
      ∙ take-append-drop 16 buf

  pub cbc_encrypt_blocks-IsBytes :
      (iv buf : List ℕ)
      → IsBlock iv
      → IsBytes buf
      → (length (cbc_encrypt_blocks E iv buf) ≡ length buf) × IsBytes (cbc_encrypt_blocks E iv buf)
  unfolding cbc_encrypt_blocks
  cbc_encrypt_blocks-IsBytes iv buf hi hb =
      cbc_encrypt_loop-IsBytes (length buf / 16) iv buf hi hb (omega arith)

  pub cbc_decrypt_blocks-IsBytes :
      (iv buf : List ℕ)
      → IsBlock iv
      → IsBytes buf
      → (length (cbc_decrypt_blocks D iv buf) ≡ length buf) × IsBytes (cbc_decrypt_blocks D iv buf)
  unfolding cbc_decrypt_blocks
  cbc_decrypt_blocks-IsBytes iv buf hi hb =
      cbc_decrypt_loop-IsBytes (length buf / 16) iv buf hi hb (omega arith)

  -- Whatever the length of the buffer, decryption under the same IV gives it back.
  pub cbc_blocks_inverse :
      (iv buf : List ℕ)
      → IsBlock iv
      → IsBytes buf
      → cbc_decrypt_blocks D iv (cbc_encrypt_blocks E iv buf) ≡ buf
  unfolding cbc_encrypt_blocks cbc_decrypt_blocks
  cbc_blocks_inverse iv buf hi hb =
      let n = length buf / 16 in
      let (len, ok) = cbc_encrypt_loop-IsBytes n iv buf hi hb (omega arith) in
      ap (λ k. cbc_decrypt_loop D iv (k / 16) (cbc_encrypt_loop E iv n buf)) len
      ∙ cbc_loop_inverse n iv buf hi hb (omega arith)
