-- ===== src/Ui/Reporter.antt =====
-- crates/nocap-crypt-ui: the five reporters (silent.rs, verbose.rs, didactic/mod.rs, corporate.rs,
-- ci.rs) and the trait's methods (event.rs); crates/nocap-crypt-cli/src/reporter_setup.rs: which one
-- is chosen. What a reporter prints of an event is a line or nothing.
use Prim.Native.String.{◌++◌ as ◌<>◌}
use nocap_crypt.Base.{
  ℕ, Bool, true, false, ◌&&◌, Option, none, some, List, String, get_elem?, if◌then◌else◌,
}
use nocap_crypt.Base.Text.{show_nat}
use nocap_crypt.Ui.Event.{
  Numbers, millis, Event, ProgressFlavor, cipher_selected, hardware_accel_path, concurrency_info,
  alignment_status, phase_timing, entropy_score, progress, outcome, narration, banner, message,
  error, meme, sterile, didactic_bar, format_human,
}
use nocap_crypt.Ui.Banner.{render_outcome_banner}

-- The reporters, with the fields `json` and `no_color`.
pub data Reporter : Type 0 where
  silent : Reporter
  verbose didactic corporate : Bool → Reporter
  ci : Bool → Bool → Reporter

-- What the reporters take from elsewhere: the figures' format, `serde_json::to_string`, and
-- `timestamp_now`.
pub record Printer : Type 1 where
  pub numbers : Numbers
  pub to_json : Event numbers.floats.F → Option String
  pub timestamp_now : String

-- `matches!(event, Event::Narration { .. })`, and with `Event::Banner`
unfoldable pub is_narration : {F : Type 0} → Event F → Bool
is_narration (narration text) = true
is_narration _ = false

unfoldable pub is_narration_or_banner : {F : Type 0} → Event F → Bool
is_narration_or_banner (narration text) = true
is_narration_or_banner (banner text) = true
is_narration_or_banner _ = false

unfoldable pub json_suppressed_in_corporate : {F : Type 0} → Event F → Bool
json_suppressed_in_corporate (hardware_accel_path description) = true
json_suppressed_in_corporate (concurrency_info cores disk chunk mode) = true
json_suppressed_in_corporate (alignment_status path aligned required) = true
json_suppressed_in_corporate (narration text) = true
json_suppressed_in_corporate (progress percent rate elapsed) = true
json_suppressed_in_corporate (outcome success code ms label) = true
json_suppressed_in_corporate _ = false

unfoldable pub level_for : {F : Type 0} → Event F → String
level_for (error text) = "ERROR"
level_for (progress percent rate elapsed) = "PROG "
level_for _ = "INFO "

module _ (pr : Printer) where
  open pr use {numbers, to_json, timestamp_now}
  open numbers use {floats, fixed}
  open floats use {F}

  -- The optional throughput of `format_corporate`.
  throughput_text : Option F → String
  throughput_text none = ""
  throughput_text (some mb_s) = " (" <> fixed 1 mb_s <> " MB/s)"

  unfoldable pub format_corporate : Event F → Option String
  unfolding throughput_text
  format_corporate (cipher_selected cipher key_bits) =
      some ("[INFO] Applying " <> cipher <> " cipher (AES-" <> show_nat key_bits <> ").")
  format_corporate (hardware_accel_path description) = none
  format_corporate (concurrency_info cores disk chunk mode) = none
  format_corporate (alignment_status path aligned required) = none
  format_corporate (phase_timing phase duration_ms throughput_mb_s) = some (
      "[SUCCESS] Volume secured in "
      <> fixed 2 (millis numbers duration_ms)
      <> "s"
      <> throughput_text throughput_mb_s
      <> ". Please update your OKRs.")
  format_corporate (entropy_score bits_per_byte uniform) = some (
      "[INFO] Entropy Compliance: "
      <> fixed 2 bits_per_byte
      <> "/8.0 bits/byte [NIST SP 800-38E ALIGNED]")
  format_corporate (progress percent rate elapsed) = none
  format_corporate (outcome success code ms label) = none
  format_corporate (narration text) = none
  format_corporate (banner text) = some text
  format_corporate (message text) = some ("[INFO] " <> text)
  format_corporate (error text) = some ("[ERROR] " <> text)

  -- `emit`
  unfoldable pub emit : Event F → Bool → Option String
  emit event json = if json then to_json event else some (format_human numbers event)

  -- A line of `Ci` in text mode, which is not an outcome's.
  unfoldable pub ci_line : Event F → String → String
  ci_line event body = timestamp_now <> " [" <> level_for event <> "] " <> body

  unfoldable pub ci_text : Event F → Bool → String
  ci_text (outcome success error_code elapsed_ms label) no_color =
      render_outcome_banner numbers success error_code elapsed_ms label no_color
  ci_text (error text) no_color = ci_line (error text) text
  ci_text event no_color = ci_line event (format_human numbers event)

  -- `report` of `Verbose`, `Didactic`, `Corporate` and `Ci`
  unfoldable pub report_verbose : Bool → Event F → Option String
  report_verbose json event = if is_narration event then none else emit event json

  unfoldable pub report_didactic : Bool → Event F → Option String
  report_didactic json event = if json && is_narration event then none else emit event json

  unfoldable pub report_corporate : Bool → Event F → Option String
  report_corporate json event =
      if json_suppressed_in_corporate event
      then none
      else if json
      then to_json event
      else format_corporate event

  unfoldable pub report_ci : Bool → Bool → Event F → Option String
  report_ci json no_color event =
      if is_narration_or_banner event
      then none
      else if json
      then to_json event
      else some (ci_text event no_color)

  -- `Reporter::report`
  unfoldable pub report : Reporter → Event F → Option String
  unfolding report_verbose report_didactic report_corporate report_ci
  report silent event = none
  report (verbose json) event = report_verbose json event
  report (didactic json) event = report_didactic json event
  report (corporate json) event = report_corporate json event
  report (ci json no_color) event = report_ci json no_color event

-- `Reporter::narrates`
unfoldable pub narrates : Reporter → Bool
narrates (didactic json) = true
narrates _ = false

-- `Reporter::progress_flavor`
unfoldable pub progress_flavor : Reporter → ProgressFlavor
progress_flavor (corporate json) = sterile
progress_flavor (didactic json) = didactic_bar
progress_flavor _ = meme

-- `Reporter::ci_mode`
unfoldable pub ci_mode : Reporter → Bool
ci_mode (ci json no_color) = true
ci_mode _ = false

abbrev pub muga_boot_banner : String
muga_boot_banner =
    "[!] INITIATING OPERATION: N O C A P\n"
    <> "[✓] Auditing Ring 0 Bureaucracy ... [ SWAMP DETECTED ]\n"
    <> "[✓] Bypassing dm-crypt cabal ...... [ BYPASSED ]\n"
    <> "[✓] Revoking CAP_SYS_ADMIN ........ [ PRIVILEGES STRIPPED ]\n"
    <> "[✓] MAKE USERSPACE GREAT AGAIN .... [ PATRIOT MODE ENGAGED ]"

abbrev pub corporate_boot_banner : String
corporate_boot_banner =
    "============================================================\n"
    <> "ENTERPRISE CRYPTOGRAPHIC GOVERNANCE MODULE v1.0.4\n"
    <> "Compliance Standard: NIST SP 800-38E / FIPS 140-2 Aligned\n"
    <> "============================================================\n"
    <> "[INFO] Establishing Zero-Trust Userspace Perimeter..."

-- `Reporter::boot_banner`
unfoldable pub boot_banner : Reporter → Option String
boot_banner (verbose json) = some muga_boot_banner
boot_banner (corporate json) = some corporate_boot_banner
boot_banner _ = none

-- `Reporter::corporate_joke`: one of the quotes, at the place that the random generator chooses.
unfoldable pub corporate_joke : List String → ℕ → Reporter → Option String
corporate_joke quotes choice (corporate json) = get_elem? quotes choice
corporate_joke quotes choice _ = none

-- `build_reporter`
unfoldable pub build_reporter : Bool → Bool → Bool → Bool → Bool → Bool → Bool → Reporter
build_reporter quiet ci_flag governance verbose_flag didactic_flag json no_color =
    if quiet
    then silent
    else if ci_flag
    then ci json no_color
    else if governance
    then corporate json
    else if didactic_flag
    then didactic json
    else if verbose_flag
    then verbose json
    else verbose json
