-- ===== src/Luks/Header.antt =====
-- crates/nocap-crypt-luks/src/header.rs: the magic and the version of a LUKS header.
use nocap_crypt.Base.{
  ℕ, ◌+◌, ◌*◌, ◌≡◌, sym, ap, ap₂, ◌∙◌, ◌↔◌, true, ◌||◌, not, Option, none, some, List, [], ◌∷◌,
  ◌++◌, length, take, drop, take-append-drop, ltb, ◌==◌, if◌then◌else◌, arith,
}
use nocap_crypt.Base.Bytes.{IsBytes, drop-IsBytes, bytes_eq, bytes_eq_iff}

-- b"LUKS\xba\xbe"
abbrev pub luks_magic : List ℕ
luks_magic = 76 ∷ 85 ∷ 75 ∷ 83 ∷ 186 ∷ 190 ∷ []

pub data LuksVersion : Type 0 where
  v1 v2 : LuksVersion

-- `u16::from_be_bytes` of the first two bytes.
unfoldable pub be_version : List ℕ → Option LuksVersion
be_version [] = none
be_version (hi ∷ []) = none
be_version (hi ∷ lo ∷ rest) =
    if hi * 256 + lo == 1 then some v1 else if hi * 256 + lo == 2 then some v2 else none

-- `detect_luks_header`
unfoldable pub detect_luks_header : List ℕ → Option LuksVersion
detect_luks_header buf =
    if ltb (length buf) 8 || not (bytes_eq (take 6 buf) luks_magic)
    then none
    else be_version (drop 6 buf)

-- The version field as it stands in the header.
abbrev pub version_bytes : LuksVersion → List ℕ
version_bytes v1 = 0 ∷ 1 ∷ []
version_bytes v2 = 0 ∷ 2 ∷ []

be_version_iff :
    (buf : List ℕ) (v : LuksVersion)
    → IsBytes buf
    → (be_version buf ≡ some v) ↔ ((rest : List ℕ) × (buf ≡ version_bytes v ++ rest))
unfolding be_version
be_version_iff [] v1 h = (λ e. cc, λ t. absurd (no_bytes t.1))
  where
    no_bytes : {rest : List ℕ} → ◌≡◌ {A = List ℕ} [] (0 ∷ 1 ∷ rest) → ⊥
    no_bytes e = cc
be_version_iff [] v2 h = (λ e. cc, λ t. absurd (no_bytes t.1))
  where
    no_bytes : {rest : List ℕ} → ◌≡◌ {A = List ℕ} [] (0 ∷ 2 ∷ rest) → ⊥
    no_bytes e = cc
be_version_iff (hi ∷ []) v1 h = (λ e. cc, λ t. absurd (one_byte t.1))
  where
    one_byte : {rest : List ℕ} → hi ∷ [] ≡ 0 ∷ 1 ∷ rest → ⊥
    one_byte e = cc
be_version_iff (hi ∷ []) v2 h = (λ e. cc, λ t. absurd (one_byte t.1))
  where
    one_byte : {rest : List ℕ} → hi ∷ [] ≡ 0 ∷ 2 ∷ rest → ⊥
    one_byte e = cc
be_version_iff (hi ∷ lo ∷ rest) v1 h =
    (λ e. (rest, ap₂ (λ a b. a ∷ b ∷ rest) (ground arith) (ground arith)), λ t. back t.1)
  where
    back :
        {r : List ℕ}
        → hi ∷ lo ∷ rest ≡ 0 ∷ 1 ∷ r
        → (if hi * 256 + lo == 1 then some v1 else if hi * 256 + lo == 2 then some v2 else none)
          ≡ some v1
    back e = let top : hi ≡ 0 = cc in let low : lo ≡ 1 = cc in ground arith
be_version_iff (hi ∷ lo ∷ rest) v2 h =
    (λ e. (rest, ap₂ (λ a b. a ∷ b ∷ rest) (ground arith) (ground arith)), λ t. back t.1)
  where
    back :
        {r : List ℕ}
        → hi ∷ lo ∷ rest ≡ 0 ∷ 2 ∷ r
        → (if hi * 256 + lo == 1 then some v1 else if hi * 256 + lo == 2 then some v2 else none)
          ≡ some v2
    back e = let top : hi ≡ 0 = cc in let low : lo ≡ 2 = cc in ground arith

-- A buffer is what its first six bytes and the rest are.
joined : (buf a b : List ℕ) → take 6 buf ≡ a → drop 6 buf ≡ b → buf ≡ a ++ b
joined buf a b h k = sym (take-append-drop 6 buf) ∙ ap₂ ◌++◌ h k

-- A volume is taken for LUKS of a version exactly if it begins with the magic and the big-endian
-- number of that version.
pub detect_luks_header_iff :
    (buf : List ℕ) (v : LuksVersion)
    → IsBytes buf
    → (detect_luks_header buf ≡ some v)
      ↔ ((rest : List ℕ) × (buf ≡ luks_magic ++ (version_bytes v ++ rest)))
unfolding detect_luks_header
detect_luks_header_iff buf v h = (λ e. to e, λ t. from t.0 t.1)
  where
    close :
        bytes_eq (take 6 buf) luks_magic ≡ true
        → ((rest : List ℕ) × (drop 6 buf ≡ version_bytes v ++ rest))
        → (rest : List ℕ) × (buf ≡ luks_magic ++ (version_bytes v ++ rest))
    close magic t = (
      t.0,
      joined buf luks_magic (version_bytes v ++ t.0)
          ((bytes_eq_iff (take 6 buf) luks_magic).0 magic) t.1,
    )

    to :
        (if ltb (length buf) 8 || not (bytes_eq (take 6 buf) luks_magic)
            then none
            else be_version (drop 6 buf))
          ≡ some v
        → (rest : List ℕ) × (buf ≡ luks_magic ++ (version_bytes v ++ rest))
    to e =
        let found : (bytes_eq (take 6 buf) luks_magic ≡ true) × (be_version (drop 6 buf) ≡ some v) =
          ground arith in
        close found.0 ((be_version_iff (drop 6 buf) v (drop-IsBytes 6 buf h)).0 found.1)

    size :
        (v : LuksVersion) (rest : List ℕ)
        → length (luks_magic ++ (version_bytes v ++ rest)) ≡ 8 + length rest
    size v1 rest = omega arith
    size v2 rest = omega arith

    from :
        (rest : List ℕ)
        → buf ≡ luks_magic ++ (version_bytes v ++ rest)
        → (if ltb (length buf) 8 || not (bytes_eq (take 6 buf) luks_magic)
            then none
            else be_version (drop 6 buf))
          ≡ some v
    from rest e =
        let magic : bytes_eq (take 6 buf) luks_magic ≡ true =
          (bytes_eq_iff (take 6 buf) luks_magic).1 (ap (take 6) e) in
        let field : be_version (drop 6 buf) ≡ some v =
          (be_version_iff (drop 6 buf) v (drop-IsBytes 6 buf h)).1 (rest, ap (drop 6) e) in
        let long : length buf ≡ 8 + length rest = ap length e ∙ size v rest in
        ground (arith, magic, field, long)
