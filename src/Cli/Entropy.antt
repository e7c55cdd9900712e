-- ===== src/Cli/Entropy.antt =====
-- crates/nocap-crypt-cli/src/cmd/entropy.rs: the scores of a file or of the standard input, with a
-- threshold for every window.
pub mod Gate
mod Tests
use Prim.Native.String.{◌++◌ as ◌<>◌}
use nocap_crypt.Base.{
  ℕ, Bool, true, false, Option, none, some, List, [], ◌∷◌, length, String, str_eq, if◌then◌else◌,
}
use nocap_crypt.Base.Result.{Result, ok, err}
use nocap_crypt.Base.Text.{show_nat}
use nocap_crypt.Entropy.Floats.{Floats}
use nocap_crypt.Entropy.Streaming.{Reader, WindowScore, StreamEntropyReport, analyze_stream}
use nocap_crypt.Ui.Event.{Event, Numbers, entropy_score, message}
use nocap_crypt.Ui.Explain.{explain_entropy_result_generic}
use nocap_crypt.Cli.ExitCode.{ExitCode, success, io, entropy_failed}
use nocap_crypt.Cli.Console.{Console}
use nocap_crypt.Cli.Report.{Report, ◌>>=◌, ◌>>◌, pure, report, narrate, bail, or_bail, or_panicked}

pub record EntropyArgs (F : Type 0) : Type 0 where
  pub input : Option String
  pub window_size : ℕ
  pub threshold : Option F

-- A stream: how it is read, and its bytes.
abbrev pub Stream : Type 0
Stream = Reader × List ℕ

-- What opening the file gives, and the standard input.
pub record Inputs : Type 0 where
  pub file : Result ℕ Stream
  pub stdin : Stream

-- `Option::unwrap_or`
abbrev pub min_or_zero : (fl : Floats) → Option fl.F → fl.F
min_or_zero fl (some a) = a
min_or_zero fl none = fl.of_nat 0

module _ (c : Console)
    (f64_min : c.numbers.floats.F → c.numbers.floats.F → c.numbers.floats.F) where
  open c use {numbers, narrates, os_text}
  open numbers use {floats, fixed}
  open floats use {F}

  -- `acc.map_or(v, |a| a.min(v))`
  abbrev pub min_with : Option F → F → F
  min_with none v = v
  min_with (some a) v = f64_min a v

  -- The fold of `min_window_entropy`.
  unfoldable pub min_window : Option F → List (WindowScore floats) → Option F
  min_window acc [] = acc
  min_window acc (w ∷ ws) = min_window (some (min_with acc w.shannon_bits_per_byte)) ws

  -- `StreamEntropyReport::min_window_entropy`
  unfoldable pub min_window_entropy : StreamEntropyReport floats → Option F
  min_window_entropy r = min_window none r.windows

  -- The stream that is asked for.
  unfoldable pub open_stream : EntropyArgs F → Inputs → Report F Stream
  open_stream args sys = elim args.input [
    | none ↦ pure sys.stdin
    | some path ↦
        if str_eq path "-"
        then pure sys.stdin
        else or_bail sys.file io (λ e. "opening " <> path <> ": " <> os_text e)
  ]

  -- What is reported of the scores.
  unfoldable pub report_scores : StreamEntropyReport floats → Report F (Unit {0})
  report_scores r = do
    report (entropy_score r.overall_shannon_bits_per_byte false)
    narrate narrates (explain_entropy_result_generic numbers r.overall_shannon_bits_per_byte)
    report (
        message (
          "overall: "
          <> fixed 4 r.overall_shannon_bits_per_byte
          <> " bits/byte, min window: "
          <> fixed 4 (min_or_zero floats (min_window_entropy r))
          <> " bits/byte, "
          <> show_nat (length r.windows)
          <> " windows, "
          <> show_nat r.total_bytes
          <> " bytes"))

  -- The threshold.
  unfoldable pub check_threshold : Option F → F → Report F ExitCode
  check_threshold none low = pure success
  check_threshold (some threshold) low =
      if floats.lt low threshold
      then bail entropy_failed
          ("min window entropy " <> fixed 4 low <> " below threshold " <> fixed 4 threshold)
      else pure success

  -- `entropy::run`
  unfoldable pub run_entropy : EntropyArgs F → Inputs → Report F ExitCode
  run_entropy args sys = do
    stream ← open_stream args sys
    analysed ← or_panicked (analyze_stream floats stream.0 args.window_size stream.1)
    r ← or_bail analysed io os_text
    report_scores r
    check_threshold args.threshold (min_or_zero floats (min_window_entropy r))
