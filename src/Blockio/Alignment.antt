-- ===== src/Blockio/Alignment.antt =====
-- crates/nocap-crypt-blockio/src/alignment.rs: alignment of offsets, lengths and buffers. A `u64` sum
-- wraps, as release builds let it.
use native.Mathlib.Decide.{dec_lt}
use native.Mathlib.Nat.{mod-lt, div-add-mod, mul-mod_right, mul-suc, mul-le-mul_left}
use nocap_crypt.Base.{
  ℕ, suc, ◌+◌, ◌-◌, ◌*◌, ◌/◌, ◌%◌, ◌^◌, ◌≤◌, ◌<◌, ◌≡◌, ◌↔◌, ap, ◌∙◌, Bool, true, ◌&&◌, Option, none,
  some, ◌==◌, if◌then◌else◌, arith,
}

-- `is_aligned`, by `is_multiple_of`: only 0 is a multiple of 0.
unfoldable pub is_aligned : ℕ → ℕ → Bool
is_aligned value alignment = if alignment == 0 then value == 0 else value % alignment == 0

-- `align_up`; `none` is the panic of a remainder by 0.
unfoldable pub align_up : ℕ → ℕ → Option ℕ
align_up value alignment =
    let rem = value % alignment in
    if alignment == 0
    then none
    else if rem == 0
    then some value
    else some ((value + (alignment - rem)) % 2 ^ 64)

pub record AlignmentReport : Type 0 where
  pub required_alignment : ℕ
  pub file_size : ℕ
  pub file_size_aligned : Bool
  pub offset : ℕ
  pub offset_aligned : Bool

-- `AlignmentReport::passes`
unfoldable pub passes : AlignmentReport → Bool
passes report = report.file_size_aligned && report.offset_aligned

-- `check_alignment`
unfoldable pub check_alignment : ℕ → ℕ → ℕ → AlignmentReport
check_alignment file_size offset alignment = record {
  required_alignment = alignment;
  file_size = file_size;
  file_size_aligned = is_aligned file_size alignment;
  offset = offset;
  offset_aligned = is_aligned offset alignment;
}

-- No multiple of `m` lies between the value, if it is none, and the next one.
next_multiple :
    (value m other : ℕ)
    → 0 < m
    → 0 < value % m
    → value ≤ other
    → other % m ≡ 0
    → value + (m - value % m) ≤ other
next_multiple value m other pos rem h e =
    let q = value / m in
    let k = other / m in
    elim (dec_lt q k) [
      | yes above ↦ omega (
        arith,
        mul-le-mul_left m above,
        div-add-mod value m,
        div-add-mod other m,
        mod-lt value pos,
        mul-suc m q,
      )
      | no below ↦ absurd (
          omega (
            arith,
            mul-le-mul_left m (not_above q k below),
            div-add-mod value m,
            div-add-mod other m,
          ))
    ]
  where
    not_above : (a b : ℕ) → ¬ (a < b) → b ≤ a
    not_above a b h = omega arith

-- The sum in `align_up` is a multiple.
sum-mod : (value m : ℕ) → 0 < m → (value + (m - value % m)) % m ≡ 0
sum-mod value m pos =
    let product : value + (m - value % m) ≡ m * suc (value / m) =
      omega (arith, mod-lt value pos, div-add-mod value m, mul-suc m (value / m)) in
    ap (λ n. n % m) product ∙ mul-mod_right m (suc (value / m))

-- Unless the sum leaves 64 bits, `align_up` gives the least aligned number that is not below the
-- value.
pub align_up_least :
    (value alignment : ℕ)
    → 0 < alignment
    → value + alignment ≤ 2 ^ 64
    → (up : ℕ) × (align_up value alignment ≡ some up)
      × (is_aligned up alignment ≡ true)
      × (value ≤ up)
      × ((other : ℕ) → value ≤ other → is_aligned other alignment ≡ true → up ≤ other)
unfolding align_up is_aligned
align_up_least value m pos small = elim (dec_lt 0 (value % m)) [
  | yes rem ↦
      let sum : (value + (m - value % m)) % 2 ^ 64 ≡ value + (m - value % m) = omega arith in
      (
        value + (m - value % m),
        ground (arith, sum),
        ground (arith, sum-mod value m pos),
        omega arith,
        λ other h e. next_multiple value m other pos rem h (ground arith),
      )
  | no whole ↦ (value, ground arith, ground arith, omega arith, λ other h e. h)
]

-- For a nonzero alignment, and where no sum leaves 64 bits: a report passes exactly if both
-- numbers are aligned, which is if `align_up` leaves them alone.
pub check_alignment-passes :
    (file_size offset alignment : ℕ)
    → 0 < alignment
    → file_size + alignment ≤ 2 ^ 64
    → offset + alignment ≤ 2 ^ 64
    → (passes (check_alignment file_size offset alignment) ≡ true) ↔ (
        (align_up file_size alignment ≡ some file_size) × (align_up offset alignment ≡ some offset))
unfolding passes check_alignment is_aligned align_up
check_alignment-passes file_size offset m pos h k =
    ground (arith, mod-lt file_size pos, mod-lt offset pos)
