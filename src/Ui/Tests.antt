-- ===== src/Ui/Tests.antt =====
-- The theorems on the reporters at work.
use Prim.Native.String.{count}
use nocap_crypt.Base.{ℕ, ◌+◌, ◌≤◌, ◌≡◌, ◌≢◌, ◌↔◌, refl, true, false, none, some}
use nocap_crypt.Base.Text.{show_nat}
use nocap_crypt.Entropy.Blind.{blind}
use nocap_crypt.Ui.Event.{Event, narration, error, entropy_score}
use nocap_crypt.Ui.Reporter.{
  Printer, silent, didactic, corporate, ci, report, build_reporter, ci_text, ci_line,
  format_corporate, level_for, is_narration_or_banner, json_suppressed_in_corporate,
}
use nocap_crypt.Ui.Banner.{AllWide, banner_lines, banner_lines-AllWide}
use nocap_crypt.Ui.Shown.{Shows, kind_of, report-Shows}

-- Figures are whole numbers, and JSON leaves everything out.
abbrev printer : Printer
printer = record {
  numbers = record { floats = blind; fixed = λ decimals x. "7.00" };
  to_json = λ event. some "{}";
  timestamp_now = "2024-01-01T00:00:00Z";
}

abbrev story : Event blind.F
story = narration "sector 0"

report-Shows_example :
    (report printer (didactic false) story ≢ none) ↔ Shows (didactic false) (kind_of story)
report-Shows_example = report-Shows printer (λ event. ("{}", refl)) (didactic false) story

tick_banner :
    (width : ℕ) × AllWide width (banner_lines "✓") × (60 ≤ width) × (count "✓" + 8 ≤ width)
tick_banner = banner_lines-AllWide "✓"

-- An error has one mark of its level in a CI log.
ci_error : report printer (ci false true) (error "boom") ≡ some "2024-01-01T00:00:00Z [ERROR] boom"
unfolding report ci_text ci_line level_for is_narration_or_banner
ci_error = refl

corporate_score :
    report printer (corporate false) (entropy_score tt true)
    ≡ some "[INFO] Entropy Compliance: 7.00/8.0 bits/byte [NIST SP 800-38E ALIGNED]"
unfolding report format_corporate json_suppressed_in_corporate show_nat
corporate_score = refl

-- `-q` wins over all other flags.
quiet_wins : build_reporter true true true true true false false ≡ silent
unfolding build_reporter
quiet_wins = refl
