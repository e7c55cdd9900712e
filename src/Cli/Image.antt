-- ===== src/Cli/Image.antt =====
-- crates/nocap-crypt-cli/src/cmd/image.rs: how large the output of `image encrypt` is, and which
-- ranges of it are processed.
pub mod Output
pub mod Plan
pub mod Exits
pub mod Reports
mod Tests
use native.Mathlib.Nat.{le-mul_of_pos_right, mul-mod_left, add-mul, div-add-mod', mod-lt}
use nocap_crypt.Base.{
  ℕ, zero, suc, ◌+◌, ◌-◌, ◌*◌, ◌/◌, ◌%◌, ◌^◌, ◌≤◌, ◌<◌, ◌≡◌, ◌↔◌, ◌⊎◌, inl, inr, refl, sym, ap, ◌∙◌,
  Bool, true, false, Option, none, some, ltb, ltb→lt, ltb→ge, ◌==◌, if◌then◌else◌, Bool-cases,
  arith,
}
use nocap_crypt.Base.Result.{Result, ok, err, ok_or}
use nocap_crypt.Cli.ExitCode.{ExitCode, invalid_args}

-- `u64::div_ceil`
abbrev pub div_ceil : ℕ → ℕ → ℕ
div_ceil n m = (n + (m - 1)) / m

-- `u64::checked_add` and `u64::checked_mul`
abbrev pub checked_add : ℕ → ℕ → Option ℕ
checked_add a b = if ltb (a + b) (2 ^ 64) then some (a + b) else none

abbrev pub checked_mul : ℕ → ℕ → Option ℕ
checked_mul a b = if ltb (a * b) (2 ^ 64) then some (a * b) else none

-- `aligned_output_size`
unfoldable pub aligned_output_size : ℕ → ℕ → ℕ → Result ExitCode ℕ
aligned_output_size input_len align_block_size align_extra_block =
    if align_block_size == 0
    then err invalid_args
    else (let blockcount = div_ceil input_len align_block_size in
        ok_or
          (elim (checked_add blockcount align_extra_block) [
            | none ↦ none
            | some blocks ↦ checked_mul blocks align_block_size
          ])
          invalid_args)

-- The size that is meant, without bounds.
abbrev pub exact_size : ℕ → ℕ → ℕ → ℕ
exact_size input_len block extra = (div_ceil input_len block + extra) * block

-- `aligned_output_size` gives the exact size, which is a multiple of the block size and has room for
-- the input and the extra blocks; it fails exactly if the block size is 0 or the size has no 64 bits.
pub aligned_output_size_lem :
    (input_len block extra : ℕ)
    → ((aligned_output_size input_len block extra ≡ err invalid_args)
        ↔ ((block ≡ 0) ⊎ (2 ^ 64 ≤ exact_size input_len block extra)))
      × ((size : ℕ)
          → aligned_output_size input_len block extra ≡ ok size
          → (size ≡ exact_size input_len block extra)
            × (size % block ≡ 0)
            × (input_len + extra * block ≤ size))
unfolding aligned_output_size
aligned_output_size_lem input_len zero extra = ((λ h. inl refl, λ h. refl), λ size h. absurd (cc h))
aligned_output_size_lem input_len (suc m) extra =
    let blocks = div_ceil input_len (suc m) + extra in
    let grows : blocks ≤ blocks * suc m = le-mul_of_pos_right blocks (omega arith) in
    let whole : blocks * suc m % suc m ≡ 0 = mul-mod_left blocks (suc m) in
    let room : input_len + extra * suc m ≤ blocks * suc m = omega (
      arith,
      add-mul (div_ceil input_len (suc m)) extra (suc m),
      div-add-mod' (input_len + m) (suc m),
      mod-lt (input_len + m) {m = suc m} (omega arith),
    ) in
    (
      (λ h. ground (arith, grows), λ h. ground (arith, grows)),
      λ size h.
          let same : size ≡ blocks * suc m = ground (arith, grows) in
          (same, ap (λ n. n % suc m) same ∙ whole, omega (arith, same, room)),
    )
