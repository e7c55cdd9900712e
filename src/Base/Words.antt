-- ===== src/Base/Words.antt =====
-- Texts, as their code points, in lines and words.
use nocap_crypt.Base.{
  ℕ, ◌≡◌, refl, Bool, true, false, ◌&&◌, Option, none, some, List, [], ◌∷◌, leb, ◌==◌,
  if◌then◌else◌,
}
use nocap_crypt.Base.Text.{is_whitespace, codes}

-- A word that ends, before the words behind it.
abbrev add_word : List ℕ → List (List ℕ) → List (List ℕ)
add_word [] words = words
add_word (c ∷ cs) words = (c ∷ cs) ∷ words

-- The word that a text starts with, and those behind it.
abbrev words_from : List ℕ → List ℕ × List (List ℕ)
unfolding is_whitespace
words_from [] = ([], [])
words_from (c ∷ cs) =
    let rest = words_from cs in
    if is_whitespace c then ([], add_word rest.0 rest.1) else (c ∷ rest.0, rest.1)

-- `str::split_whitespace`
unfoldable pub split_whitespace : List ℕ → List (List ℕ)
unfolding words_from
split_whitespace text = let first = words_from text in add_word first.0 first.1

abbrev starts_with_newline : List ℕ → Bool
starts_with_newline [] = false
starts_with_newline (c ∷ cs) = c == b'\n'

abbrev onto_line : ℕ → List (List ℕ) → List (List ℕ)
onto_line c [] = (c ∷ []) ∷ []
onto_line c (line ∷ rest) = (c ∷ line) ∷ rest

-- `str::lines`: a line ends with "\n" or "\r\n", which may be left out at the end.
unfoldable pub lines : List ℕ → List (List ℕ)
lines [] = []
lines (c ∷ cs) =
    let rest = lines cs in
    if c == b'\n'
    then [] ∷ rest
    else if (c == b'\r') && starts_with_newline cs
    then rest
    else onto_line c rest

-- `str::starts_with`
unfoldable pub starts_with : List ℕ → List ℕ → Bool
starts_with text [] = true
starts_with [] (p ∷ ps) = false
starts_with (c ∷ cs) (p ∷ ps) = (c == p) && starts_with cs ps

-- `str::strip_prefix`
unfoldable pub strip_prefix : List ℕ → List ℕ → Option (List ℕ)
strip_prefix text [] = some text
strip_prefix [] (p ∷ ps) = none
strip_prefix (c ∷ cs) (p ∷ ps) = let rest = strip_prefix cs ps in if c == p then rest else none

-- `char::is_ascii_digit`
abbrev pub is_ascii_digit : ℕ → Bool
is_ascii_digit c = leb b'0' c && leb c b'9'

-- `chars().all(|c| c.is_ascii_digit())`
unfoldable pub all_digits : List ℕ → Bool
all_digits [] = true
all_digits (c ∷ cs) = is_ascii_digit c && all_digits cs

-- `ends_with(|c| c.is_ascii_digit())`
unfoldable pub ends_with_digit : List ℕ → Bool
ends_with_digit [] = false
ends_with_digit (c ∷ []) = is_ascii_digit c
ends_with_digit (c ∷ (d ∷ ds)) = ends_with_digit (d ∷ ds)

abbrev pub is_nil : List ℕ → Bool
is_nil [] = true
is_nil (c ∷ cs) = false

-- `trim_end_matches(|c| c.is_ascii_digit())`
unfoldable pub trim_end_digits : List ℕ → List ℕ
trim_end_digits [] = []
trim_end_digits (c ∷ cs) =
    let rest = trim_end_digits cs in if is_ascii_digit c && is_nil rest then [] else c ∷ rest

-- `rfind`, with what is before and behind the last occurrence.
unfoldable pub split_last : ℕ → List ℕ → Option (List ℕ × List ℕ)
split_last p [] = none
split_last p (c ∷ cs) = elim (split_last p cs) [
  | some parts ↦ some (c ∷ parts.0, parts.1)
  | none ↦ if c == p then some ([], cs) else none
]

words : split_whitespace (codes " ext4  /data\t") ≡ codes "ext4" ∷ (codes "/data" ∷ [])
unfolding split_whitespace
words = refl

two_lines : lines (codes "a\r\n\nb\n") ≡ codes "a" ∷ ([] ∷ (codes "b" ∷ []))
unfolding lines
two_lines = refl
