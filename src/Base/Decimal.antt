-- ===== src/Base/Decimal.antt =====
-- `str::parse` of the unsigned integers, and the decimal digits that it undoes; a text is its code
-- points.
use nocap_crypt.Base.{
  ℕ, zero, suc, ◌+◌, ◌-◌, ◌*◌, ◌/◌, ◌%◌, ◌^◌, ◌≤◌, ◌<◌, ◌≡◌, refl, ◌∙◌, ap, inl, inr, ◌&&◌, List,
  [], ◌∷◌, ◌++◌, String, ltb, leb, ◌==◌, if◌then◌else◌, Bool-cases, arith,
}
use nocap_crypt.Base.Result.{Result, ok, err, ◌>>=◌, Result-cases}

-- `ParseIntError`
pub data ParseIntError : Type 0 where
  empty_text invalid_digit pos_overflow : ParseIntError

-- `Display` of `ParseIntError`
unfoldable pub parse_int_text : ParseIntError → String
parse_int_text empty_text = "cannot parse integer from empty string"
parse_int_text invalid_digit = "invalid digit found in string"
parse_int_text pos_overflow = "number too large to fit in target type"

-- One digit more, in a type whose greatest value is `bound`.
unfoldable pub add_digit : ℕ → ℕ → ℕ → Result ParseIntError ℕ
add_digit bound acc c =
    if leb b'0' c && leb c b'9'
    then if leb (acc * 10 + (c - b'0')) bound then ok (acc * 10 + (c - b'0')) else err pos_overflow
    else err invalid_digit

unfoldable pub parse_digits : ℕ → ℕ → List ℕ → Result ParseIntError ℕ
parse_digits bound acc [] = ok acc
parse_digits bound acc (c ∷ cs) = add_digit bound acc c >>= λ next. parse_digits bound next cs

-- `from_str` of an unsigned integer type: one plus sign may stand before the digits.
unfoldable pub parse_uint : ℕ → List ℕ → Result ParseIntError ℕ
parse_uint bound [] = err empty_text
parse_uint bound (c ∷ []) = parse_digits bound 0 (c ∷ [])
parse_uint bound (c ∷ (d ∷ ds)) =
    if c == b'+' then parse_digits bound 0 (d ∷ ds) else parse_digits bound 0 (c ∷ (d ∷ ds))

-- The signed integers.
pub data ℤ : Type 0 where
  pos negsuc : ℕ → ℤ

abbrev negate : ℕ → ℤ
negate zero = pos zero
negate (suc n) = negsuc n

-- `i64::from_str`
unfoldable pub parse_i64 : List ℕ → Result ParseIntError ℤ
parse_i64 [] = err empty_text
parse_i64 (c ∷ []) = parse_digits (2 ^ 63 - 1) 0 (c ∷ []) >>= λ n. ok (pos n)
parse_i64 (c ∷ (d ∷ ds)) =
    if c == b'-'
    then (parse_digits (2 ^ 63) 0 (d ∷ ds) >>= λ n. ok (negate n))
    else if c == b'+'
    then (parse_digits (2 ^ 63 - 1) 0 (d ∷ ds) >>= λ n. ok (pos n))
    else (parse_digits (2 ^ 63 - 1) 0 (c ∷ (d ∷ ds)) >>= λ n. ok (pos n))

-- The decimal digits of a number below the fuel.
unfoldable pub digits : ℕ → ℕ → List ℕ
digits zero n = []
digits (suc fuel) n =
    let front = digits fuel (n / 10) in
    if ltb n 10 then (b'0' + n) ∷ [] else front ++ ((b'0' + n % 10) ∷ [])

-- `to_string`
unfoldable pub to_decimal : ℕ → List ℕ
to_decimal n = digits (suc n) n

-- A text that starts with no sign.
data IsUnsigned : List ℕ → Type 0 where
  starts : (c : ℕ) (cs : List ℕ) → 48 ≤ c → IsUnsigned (c ∷ cs)

IsUnsigned-append : (xs ys : List ℕ) → IsUnsigned xs → IsUnsigned (xs ++ ys)
IsUnsigned-append _ ys (starts c cs h) = starts c (cs ++ ys) h

digits-IsUnsigned : (fuel n : ℕ) → n < fuel → IsUnsigned (digits fuel n)
unfolding digits
digits-IsUnsigned zero n h = absurd (omega arith)
digits-IsUnsigned (suc fuel) n h = elim (Bool-cases (ltb n 10)) [
  | inl small ↦ rw small (starts (48 + n) [] (omega arith))
  | inr large ↦ rw large (
      let big : 10 ≤ n = ground arith in
      IsUnsigned-append (digits fuel (n / 10)) _ (digits-IsUnsigned fuel (n / 10) (omega arith)))
]

parse_uint-IsUnsigned :
    (bound : ℕ) (cs : List ℕ) → IsUnsigned cs → parse_uint bound cs ≡ parse_digits bound 0 cs
unfolding parse_uint
parse_uint-IsUnsigned bound _ (starts c [] h) = refl
parse_uint-IsUnsigned bound _ (starts c (d ∷ ds) h) = ground arith

parse_digits-snoc :
    (bound acc : ℕ) (cs : List ℕ) (c : ℕ)
    → parse_digits bound acc (cs ++ (c ∷ []))
      ≡ (parse_digits bound acc cs >>= λ front. add_digit bound front c)
unfolding parse_digits
parse_digits-snoc bound acc [] c = elim (Result-cases (add_digit bound acc c)) [
  | inl (next, e) ↦ rw e refl
  | inr (fault, e) ↦ rw e refl
]
parse_digits-snoc bound acc (b ∷ bs) c = elim (Result-cases (add_digit bound acc b)) [
  | inl (next, e) ↦ rw e (parse_digits-snoc bound next bs c)
  | inr (fault, e) ↦ rw e refl
]

add_digit-ok :
    (bound acc d : ℕ)
    → d < 10
    → acc * 10 + d ≤ bound
    → add_digit bound acc (48 + d) ≡ ok (acc * 10 + d)
unfolding add_digit
add_digit-ok bound acc d h le = ground arith

parse_digits-digits :
    (bound fuel n : ℕ) → n < fuel → n ≤ bound → parse_digits bound 0 (digits fuel n) ≡ ok n
unfolding digits parse_digits
parse_digits-digits bound zero n h le = absurd (omega arith)
parse_digits-digits bound (suc fuel) n h le = elim (Bool-cases (ltb n 10)) [
  | inl small ↦
      rw small (rw (add_digit-ok bound 0 n (ground arith) (omega arith)) (ap ok (omega arith)))
  | inr large ↦
      let big : 10 ≤ n = ground arith in
      rw
        (
          large,
          parse_digits-snoc bound 0 (digits fuel (n / 10)) (48 + n % 10),
          parse_digits-digits bound fuel (n / 10) (omega arith) (omega arith),
          add_digit-ok bound (n / 10) (n % 10) (omega arith) (omega arith),
        )
        (ap ok (omega arith))
]

-- What `to_string` prints of a number in the range, `parse` reads back.
pub parse_uint-to_decimal : (bound n : ℕ) → n ≤ bound → parse_uint bound (to_decimal n) ≡ ok n
unfolding to_decimal
parse_uint-to_decimal bound n h =
    parse_uint-IsUnsigned bound _ (digits-IsUnsigned (suc n) n (omega arith))
    ∙ parse_digits-digits bound (suc n) n (omega arith) h

-- `to_string` prints something.
pub to_decimal-filled : (n : ℕ) → (c : ℕ) × (cs : List ℕ) × (to_decimal n ≡ c ∷ cs)
unfolding to_decimal
to_decimal-filled n = first _ (digits-IsUnsigned (suc n) n (omega arith))
  where
    first : (text : List ℕ) → IsUnsigned text → (c : ℕ) × (cs : List ℕ) × (text ≡ c ∷ cs)
    first _ (starts c cs h) = (c, cs, refl)
