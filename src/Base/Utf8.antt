-- ===== src/Base/Utf8.antt =====
-- `std::str::from_utf8`: the code points that bytes encode, without overlong forms and surrogates.
use nocap_crypt.Base.{
  ℕ, ◌+◌, ◌-◌, ◌*◌, ◌≡◌, refl, ◌&&◌, Option, none, some, List, [], ◌∷◌, ltb, leb, ◌==◌,
  if◌then◌else◌,
}

-- How many bytes are missing, what the bytes so far stand for, and the range of the next byte.
record Partial : Type 0 where
  missing : ℕ
  value : ℕ
  low : ℕ
  high : ℕ

abbrev whole : Partial
whole = record { missing = 0; value = 0; low = 128; high = 191 }

-- The first byte of a character of several bytes.
lead : ℕ → Option Partial
lead b =
    if leb 194 b && leb b 223
    then some (record { missing = 1; value = b - 192; low = 128; high = 191 })
    else if b == 224
    then some (record { missing = 2; value = 0; low = 160; high = 191 })
    else if b == 237
    then some (record { missing = 2; value = 13; low = 128; high = 159 })
    else if leb 225 b && leb b 239
    then some (record { missing = 2; value = b - 224; low = 128; high = 191 })
    else if b == 240
    then some (record { missing = 3; value = 0; low = 144; high = 191 })
    else if leb 241 b && leb b 243
    then some (record { missing = 3; value = b - 240; low = 128; high = 191 })
    else if b == 244
    then some (record { missing = 3; value = 4; low = 128; high = 143 })
    else none

-- One byte: what is known then, and the character that it ends.
utf8_step : Partial → ℕ → Option (Partial × Option ℕ)
unfolding lead
utf8_step p b =
    if p.missing == 0
    then (if ltb b 128
        then some (whole, some b)
        else elim (lead b) [ some p' ↦ some (p', none) | none ↦ none ])
    else if leb p.low b && leb b p.high
    then (let value = p.value * 64 + (b - 128) in
        if p.missing == 1
        then some (whole, some value)
        else some (record { missing = p.missing - 1; value = value; low = 128; high = 191 }, none))
    else none

utf8_emit : Option ℕ → Option (List ℕ) → Option (List ℕ)
utf8_emit out none = none
utf8_emit none (some cs) = some cs
utf8_emit (some c) (some cs) = some (c ∷ cs)

utf8_from : Partial → List ℕ → Option (List ℕ)
unfolding utf8_step utf8_emit
utf8_from p [] = if p.missing == 0 then some [] else none
utf8_from p (b ∷ bs) = elim (utf8_step p b) [
  | none ↦ none
  | some (p', out) ↦ utf8_emit out (utf8_from p' bs)
]

unfoldable pub from_utf8 : List ℕ → Option (List ℕ)
unfolding utf8_from
from_utf8 bytes = utf8_from whole bytes

-- `str::len`: the bytes of the encoding.
abbrev pub char_len : ℕ → ℕ
char_len c = if ltb c 128 then 1 else if ltb c 2048 then 2 else if ltb c 65536 then 3 else 4

abbrev pub utf8_len : List ℕ → ℕ
utf8_len [] = 0
utf8_len (c ∷ cs) = char_len c + utf8_len cs

decodes : from_utf8 (226 ∷ 134 ∷ 146 ∷ 65 ∷ []) ≡ some (8594 ∷ 65 ∷ [])
unfolding from_utf8
decodes = refl

-- A surrogate is no character.
rejects : from_utf8 (237 ∷ 160 ∷ 128 ∷ []) ≡ none
unfolding from_utf8
rejects = refl
