-- ===== src/Ui/Shown.antt =====
-- What each reporter shows, in either format of the log.
use nocap_crypt.Base.{◌≡◌, ◌≢◌, ◌↔◌, refl, true, false, none, some, String, arith}
use nocap_crypt.Ui.Event.{
  Event, hardware_accel_path, concurrency_info, alignment_status, progress, outcome, narration,
  banner,
}
use nocap_crypt.Ui.Reporter.{
  Reporter, silent, verbose, didactic, corporate, ci, Printer, is_narration, is_narration_or_banner,
  json_suppressed_in_corporate, format_corporate, emit, report, ci_mode,
}

-- The kinds of events that some reporter leaves out, and all others.
pub data Kind : Type 0 where
  story block technical plain : Kind

abbrev pub kind_of : {F : Type 0} → Event F → Kind
kind_of (narration text) = story
kind_of (banner text) = block
kind_of (hardware_accel_path description) = technical
kind_of (concurrency_info cores disk chunk mode) = technical
kind_of (alignment_status path aligned required) = technical
kind_of (progress percent rate elapsed) = technical
kind_of (outcome success code ms label) = technical
kind_of _ = plain

-- When a reporter shows an event: never if it is silent; narration only as didactic text; banners
-- unless it is for CI; technical events unless it is corporate. The comments on two reporters say
-- otherwise of technical events: by that on `Ci` it leaves them out, and by that on `Corporate` its
-- JSON has them.
pub record Shows (r : Reporter) (k : Kind) : Type 0 where
  pub speaks : r ≢ silent
  pub tells : k ≡ story → r ≡ didactic false
  pub frames : k ≡ block → ci_mode r ≡ false
  pub details : k ≡ technical → (r ≢ corporate false) × (r ≢ corporate true)

module _ (pr : Printer)
    (total : (event : Event pr.numbers.floats.F)
      → (text : String) × (pr.to_json event ≡ some text)) where
  shown :
      (r : Reporter) (event : Event pr.numbers.floats.F)
      → report pr r event ≢ none
      → Shows r (kind_of event)
  unfolding report emit format_corporate is_narration is_narration_or_banner
      json_suppressed_in_corporate ci_mode
  shown silent event p = absurd (p refl)
  shown (verbose json) event p = record {
    speaks = λ e. cc;
    tells = λ k. ground arith;
    frames = λ k. refl;
    details = λ k. (λ e. cc, λ e. cc);
  }
  shown (didactic json) event p = record {
    speaks = λ e. cc;
    tells = λ k. ground arith;
    frames = λ k. refl;
    details = λ k. (λ e. cc, λ e. cc);
  }
  shown (corporate json) event p = record {
    speaks = λ e. cc;
    tells = λ k. ground arith;
    frames = λ k. refl;
    details = λ k. (λ e. ground arith, λ e. ground arith);
  }
  shown (ci json no_color) event p = record {
    speaks = λ e. cc;
    tells = λ k. ground arith;
    frames = λ k. ground arith;
    details = λ k. (λ e. cc, λ e. cc);
  }

  printed :
      (r : Reporter) (event : Event pr.numbers.floats.F)
      → Shows r (kind_of event)
      → report pr r event ≢ none
  unfolding report emit format_corporate is_narration is_narration_or_banner
      json_suppressed_in_corporate ci_mode
  printed silent event s = absurd (s.speaks refl)
  printed (verbose json) event s = ground (arith, total event)
  printed (didactic json) event s = ground (arith, total event)
  printed (corporate json) event s = ground (arith, total event)
  printed (ci json no_color) event s = ground (arith, total event)

  -- Where every event has a JSON text, the reporters print as follows, in either format of the log. The
  -- silent one prints nothing, each other one all events but these: narration, which only the didactic
  -- text has; banners, which the one for CI leaves out; and the hardware path, concurrency, alignment,
  -- progress and outcome, which the corporate one leaves out, in JSON too, and the one for CI prints.
  pub report-Shows :
      (r : Reporter) (event : Event pr.numbers.floats.F)
      → (report pr r event ≢ none) ↔ Shows r (kind_of event)
  report-Shows r event = (shown r event, printed r event)
