-- ===== src/Keymgmt/Format.antt =====
-- crates/nocap-crypt-keymgmt/src/format.rs: the three forms of key material. The crates `hex` and
-- `base64` are a parameter; a text is its code points.
use nocap_crypt.Base.{
  ℕ, ◌%◌, ◌≡◌, refl, inl, inr, Bool, true, false, ◌&&◌, ◌||◌, not, none, some, List, [], ◌∷◌,
  length, String, leb, ◌==◌, if◌then◌else◌, Bool-cases, Option-cases, arith,
}
use nocap_crypt.Base.Bytes.{IsBytes}
use nocap_crypt.Base.Result.{Result, ok, err, ◌>>=◌, map_err, ok_or, Result-cases}
use nocap_crypt.Base.Text.{trim_list}
use nocap_crypt.Base.Utf8.{from_utf8, utf8_len}

pub data KeyFormat : Type 0 where
  raw hex base64 : KeyFormat

-- `hex::decode` and `BASE64.decode`; an error is its `Display`.
pub record Decoders : Type 0 where
  pub hex_decode : List ℕ → Result String (List ℕ)
  pub base64_decode : List ℕ → Result String (List ℕ)

pub data KeyParseError : Type 0 where
  not_utf8 : KeyFormat → KeyParseError
  invalid_hex invalid_base64 : String → KeyParseError

-- `char::is_ascii_hexdigit`
unfoldable pub is_ascii_hexdigit : ℕ → Bool
is_ascii_hexdigit c = (leb 48 c && leb c 57) || (leb 65 c && leb c 70) || (leb 97 c && leb c 102)

unfoldable pub all_hexdigits : List ℕ → Bool
all_hexdigits [] = true
all_hexdigits (c ∷ cs) = is_ascii_hexdigit c && all_hexdigits cs

abbrev pub is_empty : List ℕ → Bool
is_empty [] = true
is_empty (c ∷ cs) = false

abbrev pub is_ok : Result String (List ℕ) → Bool
is_ok (ok a) = true
is_ok (err e) = false

-- The first test of `detect_format`.
abbrev pub is_hex : List ℕ → Bool
is_hex trimmed = not (is_empty trimmed) && (utf8_len trimmed % 2 == 0) && all_hexdigits trimmed

module _ (d : Decoders) where
  -- `parse_key`
  unfoldable pub parse_key : List ℕ → KeyFormat → Result KeyParseError (List ℕ)
  parse_key bytes raw = ok bytes
  parse_key bytes hex = ok_or (from_utf8 bytes) (not_utf8 hex) >>= λ text.
      map_err (d.hex_decode (trim_list text)) invalid_hex
  parse_key bytes base64 = ok_or (from_utf8 bytes) (not_utf8 base64) >>= λ text.
      map_err (d.base64_decode (trim_list text)) invalid_base64

  -- `detect_format` on a text that is trimmed.
  unfoldable pub detect_text : List ℕ → KeyFormat
  detect_text trimmed =
      if is_hex trimmed
      then hex
      else if not (is_empty trimmed) && is_ok (d.base64_decode trimmed)
      then base64
      else raw

  -- `detect_format`
  unfoldable pub detect_format : List ℕ → KeyFormat
  detect_format bytes = elim (from_utf8 bytes) [
    | some text ↦ detect_text (trim_list text)
    | none ↦ raw
  ]

-- The documentation of the two crates: an even number of hexadecimal digits decodes, and what comes
-- out are bytes.
pub record IsDecoding (d : Decoders) : Type 0 where
  pub hex_decode-ok :
      (text : List ℕ)
      → length text % 2 ≡ 0
      → all_hexdigits text ≡ true
      → (bs : List ℕ) × (d.hex_decode text ≡ ok bs)
  pub hex_decode-IsBytes : (text : List ℕ) {bs : List ℕ} → d.hex_decode text ≡ ok bs → IsBytes bs
  pub base64_decode-IsBytes :
      (text : List ℕ) {bs : List ℕ} → d.base64_decode text ≡ ok bs → IsBytes bs

-- Hexadecimal digits take one byte each.
utf8_len-all_hexdigits : (text : List ℕ) → all_hexdigits text ≡ true → utf8_len text ≡ length text
unfolding all_hexdigits is_ascii_hexdigit
utf8_len-all_hexdigits [] h = refl
utf8_len-all_hexdigits (c ∷ cs) h = ground (arith, utf8_len-all_hexdigits cs)

module _ (d : Decoders) (decoding : IsDecoding d) where
  -- The key that comes out of bytes in a format.
  abbrev pub Parses : List ℕ → KeyFormat → Type 0
  Parses bytes format =
      (key : List ℕ) × (parse_key d bytes format ≡ ok key) × (IsBytes bytes → IsBytes key)

  parse-hex :
      (bytes text key : List ℕ)
      → from_utf8 bytes ≡ some text
      → d.hex_decode (trim_list text) ≡ ok key
      → Parses bytes hex
  unfolding parse_key
  parse-hex bytes text key utf8 r =
      (key, rw (parse_key, utf8, r) refl, λ h. decoding.hex_decode-IsBytes _ r)

  parse-base64 :
      (bytes text key : List ℕ)
      → from_utf8 bytes ≡ some text
      → d.base64_decode (trim_list text) ≡ ok key
      → Parses bytes base64
  unfolding parse_key
  parse-base64 bytes text key utf8 r =
      (key, rw (parse_key, utf8, r) refl, λ h. decoding.base64_decode-IsBytes _ r)

  parse-raw : (bytes : List ℕ) → Parses bytes raw
  unfolding parse_key
  parse-raw bytes = (bytes, refl, λ h. h)

  detect_text-Parses :
      (bytes text : List ℕ)
      → from_utf8 bytes ≡ some text
      → Parses bytes (detect_text d (trim_list text))
  unfolding detect_text
  detect_text-Parses bytes text utf8 = elim (Bool-cases (is_hex trimmed)) [
    | inl found ↦
        let digits : all_hexdigits trimmed ≡ true = ground arith in
        let even : length trimmed % 2 ≡ 0 = ground (arith, utf8_len-all_hexdigits trimmed digits) in
        let (key, r) = decoding.hex_decode-ok trimmed even digits in
        rw (detect_text, found) (parse-hex bytes text key utf8 r)
    | inr other ↦ elim (Result-cases (d.base64_decode trimmed)) [
      | inl (key, r) ↦ elim (Bool-cases (is_empty trimmed)) [
        | inl empty ↦ rw (detect_text, other, empty) (parse-raw bytes)
        | inr full ↦ rw (detect_text, other, full, r) (parse-base64 bytes text key utf8 r)
      ]
      | inr (e, r) ↦ elim (Bool-cases (is_empty trimmed)) [
        | inl empty ↦ rw (detect_text, other, empty) (parse-raw bytes)
        | inr full ↦ rw (detect_text, other, full, r) (parse-raw bytes)
      ]
    ]
  ]
    where
      trimmed : List ℕ
      trimmed = trim_list text

  -- What `detect_format` takes bytes for, `parse_key` can read them as, and bytes come out.
  pub parse_key-detect_format : (bytes : List ℕ) → Parses bytes (detect_format d bytes)
  unfolding detect_format
  parse_key-detect_format bytes = elim (Option-cases (from_utf8 bytes)) [
    | inl binary ↦ rw (detect_format, binary) (parse-raw bytes)
    | inr (text, utf8) ↦ rw (detect_format, utf8) (detect_text-Parses bytes text utf8)
  ]
