-- ===== src/Core/Iv.antt =====
-- crates/nocap-crypt-core/src/iv.rs: the `plain64` IV of a 512-byte sector.
use nocap_crypt.Base.{ℕ, ◌≡◌, ap, sym, ◌∙◌, List, ◌++◌, replicate, arith}
use nocap_crypt.Base.{length, take, length-append, take-append_self}
use nocap_crypt.Base.Bytes.{
  IsU64, IsBytes, le_bytes, le_value, length-le_bytes, le_bytes-IsBytes, le_value-le_bytes,
  append-IsBytes, zeros-IsBytes,
}

-- `IV_SECTOR_SIZE`, and `SECTOR_SIZE` of engine.rs, which is the same number as a `usize`.
abbrev pub sector_size : ℕ
sector_size = 512

-- Eight bytes of the sector number, lowest first, and eight zero bytes.
unfoldable pub plain64_iv : ℕ → List ℕ
plain64_iv sector = le_bytes 8 sector ++ replicate 8 0

-- An AES block: 16 bytes.
abbrev pub IsBlock : List ℕ → Type 0
IsBlock b = (length b ≡ 16) × IsBytes b

pub plain64_iv-IsBlock : (sector : ℕ) → IsBlock (plain64_iv sector)
unfolding plain64_iv
plain64_iv-IsBlock sector = (
  omega (arith, length-append (le_bytes 8 sector) (replicate 8 0), length-le_bytes 8 sector),
  append-IsBytes (le_bytes 8 sector) (replicate 8 0) (le_bytes-IsBytes 8 sector) (zeros-IsBytes 8),
)

-- The sector number can be read back from the first half of its IV.
pub le_value-plain64_iv :
    (sector : ℕ) → IsU64 sector → le_value (take 8 (plain64_iv sector)) ≡ sector
unfolding plain64_iv
le_value-plain64_iv sector h =
    ap le_value (take-append_self 8 (le_bytes 8 sector) (replicate 8 0) (length-le_bytes 8 sector))
    ∙ le_value-le_bytes 8 sector h

-- Two sectors with the same IV are the same sector.
pub plain64_iv_injective : (a b : ℕ) → IsU64 a → IsU64 b → plain64_iv a ≡ plain64_iv b → a ≡ b
plain64_iv_injective a b ha hb e =
    sym (le_value-plain64_iv a ha) ∙ ap (λ iv. le_value (take 8 iv)) e ∙ le_value-plain64_iv b hb
