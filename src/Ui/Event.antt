-- ===== src/Ui/Event.antt =====
-- crates/nocap-crypt-ui/src/event.rs: the events and their text.
use Prim.Native.String.{◌++◌ as ◌<>◌}
use nocap_crypt.Base.{ℕ, Bool, true, false, Option, none, some, String}
use nocap_crypt.Entropy.Floats.{Floats}
use nocap_crypt.Base.Text.{show_nat}

-- The arithmetic of `f64`, and its `Display` with a number of decimals, `{:.n}`.
pub record Numbers : Type 1 where
  pub floats : Floats
  pub fixed : ℕ → floats.F → String

-- `ms as f64 / 1000.0`
abbrev pub millis : (n : Numbers) → ℕ → n.floats.F
millis n ms = n.floats.div (n.floats.of_nat ms) (n.floats.of_nat 1000)

-- `Event`, with the type of its figures.
pub data Event (F : Type 0) : Type 0 where
  cipher_selected : String → ℕ → Event F
  hardware_accel_path : String → Event F
  concurrency_info : ℕ → String → ℕ → String → Event F
  alignment_status : String → Bool → ℕ → Event F
  phase_timing : String → ℕ → Option F → Event F
  entropy_score : F → Bool → Event F
  progress : F → Option F → F → Event F
  outcome : Bool → String → ℕ → String → Event F
  narration banner message error : String → Event F

pub data ProgressFlavor : Type 0 where
  meme sterile didactic_bar : ProgressFlavor

-- `Display` of `bool`
unfoldable pub show_bool : Bool → String
show_bool true = "true"
show_bool false = "false"

-- The texts of the two Boolean fields.
aligned_text : Bool → String
aligned_text true = "OK"
aligned_text false = "FAIL"

outcome_text : Bool → String
outcome_text true = "success"
outcome_text false = "failure"

module _ (n : Numbers) where
  open n use {floats, fixed}
  open floats use {F}

  -- `format_human`
  unfoldable pub format_human : Event F → String
  unfolding show_bool aligned_text outcome_text
  format_human (cipher_selected cipher key_bits) =
      "cipher: " <> cipher <> " (AES-" <> show_nat key_bits <> ")"
  format_human (hardware_accel_path description) = "hw accel: " <> description
  format_human (concurrency_info effective_cores disk_type chunk_sectors concurrency) =
      "concurrency: "
      <> concurrency
      <> " (cores="
      <> show_nat effective_cores
      <> ", disk="
      <> disk_type
      <> ", chunk_sectors="
      <> show_nat chunk_sectors
      <> ")"
  format_human (alignment_status path aligned required_alignment) =
      "alignment: "
      <> path
      <> " "
      <> aligned_text aligned
      <> " (required="
      <> show_nat required_alignment
      <> ")"
  format_human (phase_timing phase duration_ms (some mb_s)) =
      "phase " <> phase <> ": " <> show_nat duration_ms <> "ms (" <> fixed 1 mb_s <> " MB/s)"
  format_human (phase_timing phase duration_ms none) =
      "phase " <> phase <> ": " <> show_nat duration_ms <> "ms"
  format_human (entropy_score bits_per_byte chi_square_uniform_95) =
      "entropy: "
      <> fixed 4 bits_per_byte
      <> " bits/byte (chi-square uniform@95%: "
      <> show_bool chi_square_uniform_95
      <> ")"
  format_human (progress percent (some mb_s) elapsed_secs) =
      "progress: "
      <> fixed 0 percent
      <> "% ("
      <> fixed 1 mb_s
      <> " MB/s, "
      <> fixed 1 elapsed_secs
      <> "s elapsed)"
  format_human (progress percent none elapsed_secs) =
      "progress: " <> fixed 0 percent <> "% (" <> fixed 1 elapsed_secs <> "s elapsed)"
  format_human (outcome success error_code elapsed_ms label) =
      "outcome: "
      <> outcome_text success
      <> " ["
      <> error_code
      <> "] "
      <> label
      <> " ("
      <> fixed 1 (millis n elapsed_ms)
      <> "s)"
  format_human (narration text) = "  → " <> text
  format_human (banner text) = text
  format_human (message text) = text
  format_human (error text) = "error: " <> text
