-- ===== src/Entropy/Tests.antt =====
-- The theorem on streams at work, with whole numbers in the place of `f64` and a reader that gives
-- two bytes at a time at most.
use nocap_crypt.Base.{ℕ, ◌<◌, ◌≡◌, refl, min, some, List, [], ◌∷◌, length, arith}
use nocap_crypt.Base.Result.{ok, ok_injective}
use nocap_crypt.Entropy.Scores.{
  shannon_entropy, chi_square_statistic, entropy_sum, present, tally, bump,
}
use nocap_crypt.Entropy.Blind.{whole}
use nocap_crypt.Entropy.Streaming.{
  Reader, IsReader, StreamEntropyReport, analyze_stream, stream_loop, read_full, score_window,
}
use nocap_crypt.Entropy.Streaming.Report.{Scored, analyze_stream_lem}

abbrev pairs : Reader
pairs left len = ok (min 2 (min len (length left)))

pairs-IsReader : IsReader pairs
pairs-IsReader = record {
  bounded = λ left len {n} e. (omega (arith, ok_injective e), omega (arith, ok_injective e));
  progress = λ left len e some_asked. omega (arith, ok_injective e);
}

abbrev stream : List ℕ
stream = 5 ∷ 5 ∷ 7 ∷ 5 ∷ []

abbrev report : StreamEntropyReport whole
report = record {
  windows =
      record { window_index = 0; offset = 0; len = 3; shannon_bits_per_byte = 0; chi_square = 0 }
      ∷ record { window_index = 1; offset = 3; len = 1; shannon_bits_per_byte = 1; chi_square = 0 }
      ∷ [];
  overall_shannon_bits_per_byte = 0;
  total_bytes = 4;
}

analyzed : analyze_stream whole pairs 3 stream ≡ some (ok report)
unfolding analyze_stream stream_loop read_full score_window shannon_entropy chi_square_statistic
    entropy_sum present tally bump
analyzed = refl

three : 0 < 3
three = omega arith

analyze_stream_lem_example :
    Scored whole pairs pairs-IsReader 3 three stream 0 0 report.windows
    × (0 ≡ shannon_entropy whole stream)
    × (4 ≡ length stream)
analyze_stream_lem_example = analyze_stream_lem whole pairs pairs-IsReader 3 three stream analyzed
