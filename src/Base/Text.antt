-- ===== src/Base/Text.antt =====
-- Texts: decimal numbers (`Display` of the unsigned integers), `str::trim`, repeated characters,
-- and texts as the lists of their code points.
use Prim.Native.Char.{code}
use Prim.Native.String.{String, count, ◌++◌ as ◌<>◌}
use text.Mathlib.TextLemmas.{length-append as count-append, length-nil as count-nil}
use nocap_crypt.Base.{
  ℕ, zero, suc, ◌+◌, ◌-◌, ◌*◌, ◌/◌, ◌%◌, ◌≡◌, refl, Bool, ◌&&◌, ◌||◌, List, [], ◌∷◌, length, map,
  ltb, leb, ◌==◌, str_eq, if◌then◌else◌, arith,
}

digit : ℕ → String
digit zero = "0"
digit (suc zero) = "1"
digit (suc (suc zero)) = "2"
digit (suc (suc (suc zero))) = "3"
digit (suc (suc (suc (suc zero)))) = "4"
digit (suc (suc (suc (suc (suc zero))))) = "5"
digit (suc (suc (suc (suc (suc (suc zero)))))) = "6"
digit (suc (suc (suc (suc (suc (suc (suc zero))))))) = "7"
digit (suc (suc (suc (suc (suc (suc (suc (suc zero)))))))) = "8"
digit _ = "9"

-- The decimal digits of a number below ten to the power of the fuel.
decimal : ℕ → ℕ → String
unfolding digit
decimal zero n = ""
decimal (suc fuel) n =
    let front = decimal fuel (n / 10) in if ltb n 10 then digit n else front <> digit (n % 10)

-- A number has at most as many digits as its successor counts.
unfoldable pub show_nat : ℕ → String
unfolding decimal
show_nat n = decimal (suc n) n

-- `{:03}`
unfoldable pub pad_three : ℕ → String
pad_three n =
    if ltb n 10 then "00" <> show_nat n else if ltb n 100 then "0" <> show_nat n else show_nat n

-- `char::is_whitespace`: the code points with the property White_Space.
unfoldable pub is_whitespace : ℕ → Bool
is_whitespace c =
    (leb 9 c && leb c 13)
    || (c == 32 || c == 133 || c == 160 || c == 5760)
    || (leb 8192 c && leb c 8202)
    || (c == 8232 || c == 8233 || c == 8239 || c == 8287 || c == 12288)

unfoldable pub trim_start : String → String
unfolding is_whitespace
trim_start String.[] = ""
trim_start (String.◌∷◌ c s) =
    let rest = trim_start s in if is_whitespace (code c) then rest else String.◌∷◌ c s

unfoldable pub trim_end : String → String
unfolding is_whitespace
trim_end String.[] = ""
trim_end (String.◌∷◌ c s) =
    let rest = trim_end s in
    if is_whitespace (code c) && str_eq rest "" then "" else String.◌∷◌ c rest

-- `str::trim`
unfoldable pub trim : String → String
unfolding trim_start trim_end
trim s = trim_end (trim_start s)

hex_letter : ℕ → String
hex_letter zero = "a"
hex_letter (suc zero) = "b"
hex_letter (suc (suc zero)) = "c"
hex_letter (suc (suc (suc zero))) = "d"
hex_letter (suc (suc (suc (suc zero)))) = "e"
hex_letter _ = "f"

-- `{byte:02x}`
unfoldable pub hex_digit : ℕ → String
unfolding hex_letter
hex_digit d = if ltb d 10 then show_nat d else hex_letter (d - 10)

unfoldable pub hex_byte : ℕ → String
hex_byte byte = hex_digit (byte / 16) <> hex_digit (byte % 16)

unfoldable pub hex_bytes : List ℕ → String
hex_bytes [] = ""
hex_bytes (byte ∷ bytes) = hex_byte byte <> hex_bytes bytes

-- `str::repeat`
unfoldable pub repeat : String → ℕ → String
repeat s zero = ""
repeat s (suc n) = s <> repeat s n

pub count-repeat : (s : String) (n : ℕ) → count (repeat s n) ≡ count s * n
unfolding repeat
count-repeat s zero = grind (arith, count-nil)
count-repeat s (suc n) = grind (arith, count-append s (repeat s n), count-repeat s n)

-- The code points of a text.
abbrev pub codes : String → List ℕ
codes String.[] = []
codes (String.◌∷◌ c s) = code c ∷ codes s

-- `str::to_ascii_lowercase`, on code points.
unfoldable pub to_ascii_lowercase : List ℕ → List ℕ
to_ascii_lowercase = map (λ c. if leb b'A' c && leb c b'Z' then c + 32 else c)

-- `str::trim` of a text as its code points.
trim_list_start : List ℕ → List ℕ
unfolding is_whitespace
trim_list_start [] = []
trim_list_start (c ∷ cs) = let rest = trim_list_start cs in if is_whitespace c then rest else c ∷ cs

trim_list_end : List ℕ → List ℕ
unfolding is_whitespace
trim_list_end [] = []
trim_list_end (c ∷ cs) =
    let rest = trim_list_end cs in if is_whitespace c && leb (length rest) 0 then [] else c ∷ rest

unfoldable pub trim_list : List ℕ → List ℕ
unfolding trim_list_start trim_list_end
trim_list cs = trim_list_end (trim_list_start cs)

shows : show_nat 1024 <> trim " \n4 2\t" ≡ "10244 2"
unfolding show_nat trim
shows = refl
