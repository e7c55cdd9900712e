-- ===== src/Ui/Banner.antt =====
-- crates/nocap-crypt-ui/src/ci.rs, `render_outcome_banner`: the block at the end of a `--ci` run.
use Prim.Native.String.{count, ◌++◌ as ◌<>◌}
use text.Mathlib.TextLemmas.{length-append as count-append}
use nocap_crypt.Base.{
  ℕ, ◌+◌, ◌-◌, ◌≤◌, ◌≡◌, max, Bool, true, false, List, [], ◌∷◌, String, if◌then◌else◌, arith,
}
use nocap_crypt.Base.Text.{repeat, count-repeat}
use nocap_crypt.Ui.Event.{Numbers, millis}

-- The mark, the word and the background.
abbrev mark : Bool → String
mark true = "✓"
mark false = "✗"

abbrev word : Bool → String
word true = "SUCCESS"
word false = "FAILURE"

abbrev background : Bool → String
background true = "\u{1b}[42m\u{1b}[97m"
background false = "\u{1b}[41m\u{1b}[97m"

-- `{mark}  {word} [{error_code}] — {label} ({elapsed_s:.1}s)`
unfoldable pub banner_content : Numbers → Bool → String → ℕ → String → String
banner_content n success error_code elapsed_ms label =
    mark success
    <> "  "
    <> word success
    <> " ["
    <> error_code
    <> "] — "
    <> label
    <> " ("
    <> n.fixed 1 (millis n elapsed_ms)
    <> "s)"

-- The five lines around a content, without their colour.
unfoldable pub banner_lines : String → List String
banner_lines content =
    let content_len = count content in
    let width = max (content_len + 8) 60 in
    let border = repeat "█" width in
    let blank = "██" <> repeat " " (width - 4) <> "██" in
    let content_line = "██  " <> content <> repeat " " (width - content_len - 8) <> "  ██" in
    border ∷ blank ∷ content_line ∷ blank ∷ border ∷ []

-- Each line between the colour and the reset, with line breaks between them.
unfoldable pub colour_lines : String → String → List String → String
colour_lines bg reset [] = ""
colour_lines bg reset (line ∷ []) = bg <> line <> reset
colour_lines bg reset (line ∷ (next ∷ rest)) =
    bg <> line <> reset <> "\n" <> colour_lines bg reset (next ∷ rest)

-- `render_outcome_banner`
unfoldable pub render_outcome_banner : Numbers → Bool → String → ℕ → String → Bool → String
render_outcome_banner n success error_code elapsed_ms label no_color =
    colour_lines (if no_color then "" else background success)
      (if no_color then "" else "\u{1b}[0m")
      (banner_lines (banner_content n success error_code elapsed_ms label))

-- Every text of a list has the same number of characters.
abbrev pub AllWide : ℕ → List String → Type 0
AllWide width [] = Unit
AllWide width (line ∷ lines) = (count line ≡ width) × AllWide width lines

-- Spaces between two texts.
count-spaced :
    (left right : String) (spaces : ℕ)
    → count (left <> repeat " " spaces <> right) ≡ count left + spaces + count right
count-spaced left right spaces = omega (
  arith,
  count-append left (repeat " " spaces <> right),
  count-append (repeat " " spaces) right,
  count-repeat " " spaces,
)

-- Whatever the content, the lines of the banner are equally wide, at least 60 characters, and wide
-- enough for the content with four characters on each side.
pub banner_lines-AllWide :
    (content : String)
    → (width : ℕ) × AllWide width (banner_lines content)
      × (60 ≤ width)
      × (count content + 8 ≤ width)
unfolding banner_lines
banner_lines-AllWide content =
    let width : ℕ = max (count content + 8) 60 in
    let border : count (repeat "█" width) ≡ width = omega (arith, count-repeat "█" width) in
    let blank : count ("██" <> repeat " " (width - 4) <> "██") ≡ width =
      omega (arith, count-spaced "██" "██" (width - 4)) in
    let line : count ("██  " <> content <> repeat " " (width - count content - 8) <> "  ██")
        ≡ width =
      omega (
        arith,
        count-append "██  " (content <> repeat " " (width - count content - 8) <> "  ██"),
        count-spaced content "  ██" (width - count content - 8),
      ) in
    (width, (border, (blank, (line, (blank, (border, tt))))), omega arith, omega arith)
