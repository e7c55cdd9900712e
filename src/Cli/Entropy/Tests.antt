-- ===== src/Cli/Entropy/Tests.antt =====
-- `entropy` at work.
use nocap_crypt.Base.{◌≡◌, refl, min, true, none, some, [], ◌∷◌, length, arith}
use nocap_crypt.Base.Result.{ok, err}
use nocap_crypt.Base.Text.{show_nat}
use nocap_crypt.Entropy.Blind.{whole}
use nocap_crypt.Entropy.Scores.{
  shannon_entropy, chi_square_statistic, entropy_sum, present, tally, bump,
}
use nocap_crypt.Entropy.Streaming.{Reader, read_full, analyze_stream, stream_loop, score_window}
use nocap_crypt.Cli.ExitCode.{success}
use nocap_crypt.Cli.Console.{Console}
use nocap_crypt.Cli.Report.{◌>>=◌, ◌>>◌}
use nocap_crypt.Cli.Entropy.{
  EntropyArgs, Inputs, open_stream, report_scores, check_threshold, run_entropy, min_window_entropy,
  min_window,
}
use nocap_crypt.Cli.Entropy.Gate.{IsMin, Passed, run_entropy-Passed}

abbrev console : Console
console = record {
  numbers = record { floats = whole; fixed = λ decimals x. "7.0" };
  narrates = true;
  os_text = show_nat;
  debug = λ s. s;
}

abbrev reader : Reader
reader left len = ok (min len (length left))

abbrev args : EntropyArgs whole.F
args = record { input = none; window_size = 1; threshold = some 1 }

abbrev sys : Inputs
sys = record { file = err 2; stdin = (reader, 1 ∷ (2 ∷ (3 ∷ []))) }

abbrev smaller : whole.F → whole.F → whole.F
smaller a b = min a b

smaller-IsMin : IsMin whole smaller
smaller-IsMin = record { left = λ a b t h. ground arith; right = λ a b t h. ground arith }

passes : (run_entropy console smaller args sys).1 ≡ ok success
unfolding run_entropy open_stream report_scores check_threshold ◌>>=◌ ◌>>◌ analyze_stream
    stream_loop read_full score_window shannon_entropy chi_square_statistic entropy_sum present
    tally bump min_window_entropy min_window
passes = refl

run_entropy-Passed_example : Passed console args sys 1
run_entropy-Passed_example = run_entropy-Passed console smaller smaller-IsMin args sys 1 refl passes
