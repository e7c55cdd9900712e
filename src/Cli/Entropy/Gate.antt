-- ===== src/Cli/Entropy/Gate.antt =====
-- What a success of `entropy --threshold` says of the stream.
use nocap_crypt.Base.{
  ℕ, ◌≡◌, ◌≢◌, refl, sym, ap, ◌∙◌, subst, inl, inr, false, String, str_eq, str_eq_iff, Option, none,
  some, some_injective, List, [], ◌∷◌, Bool-cases,
}
use nocap_crypt.Base.Result.{Result, ok, err, not_ok, ok_injective}
use nocap_crypt.Entropy.Floats.{Floats}
use nocap_crypt.Entropy.Streaming.{WindowScore, StreamEntropyReport, analyze_stream}
use nocap_crypt.Cli.ExitCode.{success, io}
use nocap_crypt.Cli.Console.{Console}
use nocap_crypt.Cli.Report.{or_bail, or_panicked, bind-ok, ◌>>◌}
use nocap_crypt.Cli.Entropy.{
  EntropyArgs, Stream, Inputs, min_or_zero, min_with, min_window, min_window_entropy, open_stream,
  report_scores, check_threshold, run_entropy,
}

-- `f64::min` is not above either of its arguments; a figure that is not a number is not below anything.
pub record IsMin (fl : Floats) (f64_min : fl.F → fl.F → fl.F) : Type 0 where
  pub left : (a b t : fl.F) → fl.lt (f64_min a b) t ≡ false → fl.lt a t ≡ false
  pub right : (a b t : fl.F) → fl.lt (f64_min a b) t ≡ false → fl.lt b t ≡ false

-- No window has a score below the threshold.
pub data NoneBelow (fl : Floats) (t : fl.F) : List (WindowScore fl) → Type 0 where
  nil : NoneBelow fl t []
  cons :
      (w : WindowScore fl) (ws : List (WindowScore fl))
      → fl.lt w.shannon_bits_per_byte t ≡ false
      → NoneBelow fl t ws
      → NoneBelow fl t (w ∷ ws)

-- The stream that the options ask for: the standard input without a path or with "-", else the file,
-- which could be opened.
pub data Requested (sys : Inputs) : Option String → Stream → Type 0 where
  no_path : Requested sys none sys.stdin
  dash : Requested sys (some "-") sys.stdin
  file :
      (path : String) (stream : Stream)
      → path ≢ "-"
      → sys.file ≡ ok stream
      → Requested sys (some path) stream

-- The stream that is asked for, with its report.
pub record Passed (c : Console) (args : EntropyArgs c.numbers.floats.F) (sys : Inputs)
    (t : c.numbers.floats.F) : Type 0 where
  pub stream : Stream
  pub requested : Requested sys args.input stream
  pub scores : StreamEntropyReport c.numbers.floats
  pub analysed :
      analyze_stream c.numbers.floats stream.0 args.window_size stream.1 ≡ some (ok scores)
  pub none_below : NoneBelow c.numbers.floats t scores.windows

module _ (c : Console) (f64_min : c.numbers.floats.F → c.numbers.floats.F → c.numbers.floats.F)
    (is_min : IsMin c.numbers.floats f64_min) where
  open c use {numbers}
  open numbers use {floats}
  open floats use {F}

  min_with-NoneBelow :
      (acc : Option F) (v t : F)
      → floats.lt (min_with c f64_min acc v) t ≡ false
      → (floats.lt v t ≡ false) × ((a : F) → acc ≡ some a → floats.lt a t ≡ false)
  min_with-NoneBelow none v t h = (h, λ a e. absurd (not_some e))
    where
      not_some : {a : F} → ◌≡◌ {A = Option F} none (some a) → ⊥
      not_some e = cc
  min_with-NoneBelow (some b) v t h = (
    is_min.right b v t h,
    λ a e. subst (λ x. floats.lt x t ≡ false) (some_injective e) (is_min.left b v t h),
  )

  min_window-NoneBelow :
      (acc : Option F) (ws : List (WindowScore floats)) (t : F)
      → ((m : F) → min_window c f64_min acc ws ≡ some m → floats.lt m t ≡ false)
      → NoneBelow floats t ws × ((a : F) → acc ≡ some a → floats.lt a t ≡ false)
  unfolding min_window
  min_window-NoneBelow acc [] t h = (nil, h)
  min_window-NoneBelow acc (w ∷ ws) t h =
      let (rest, carried) =
        min_window-NoneBelow (some (min_with c f64_min acc w.shannon_bits_per_byte)) ws t h in
      let (here, before) = min_with-NoneBelow acc w.shannon_bits_per_byte t (carried _ refl) in
      (cons w ws here rest, before)

  check_threshold-success :
      (t low : F)
      → (check_threshold c f64_min (some t) low).1 ≡ ok success
      → floats.lt low t ≡ false
  unfolding check_threshold
  check_threshold-success t low h = elim (Bool-cases (floats.lt low t)) [
    | inl below ↦ absurd (not_ok (rw (check_threshold, below) at h))
    | inr above ↦ above
  ]

  open_stream-Requested :
      (args : EntropyArgs F) (sys : Inputs) (input : Option String) {stream : Stream}
      → args.input ≡ input
      → (open_stream c f64_min args sys).1 ≡ ok stream
      → Requested sys input stream
  unfolding open_stream
  open_stream-Requested args sys none given h =
      subst (Requested sys none) (ok_injective (rw (open_stream, given) at h)) no_path
  open_stream-Requested args sys (some path) {stream} given h =
      elim (Bool-cases (str_eq path "-")) [
        | inl is_dash ↦
            let same : path ≡ "-" = (str_eq_iff path "-").0 is_dash in
            subst (λ p. Requested sys (some p) stream) (sym same)
              (subst (Requested sys (some "-"))
                (ok_injective (rw (open_stream, given, is_dash) at h)) dash)
        | inr other ↦
            file path _ (λ e. cc (other, (str_eq_iff path "-").1 e))
              (opened _ sys.file (rw (open_stream, given, other) at h))
      ]
    where
      opened :
          {stream : Stream} (text : ℕ → String) (r : Result ℕ Stream)
          → (or_bail {F = F} r io text).1 ≡ ok stream
          → r ≡ ok stream
      opened text (ok b) e = ap ok (ok_injective e)
      opened text (err x) e = absurd (not_ok e)

  -- If `entropy` with a threshold ends with success, the stream that it analysed is the one that was
  -- asked for: the standard input if there is no path or it is "-", else the file at the path. Its
  -- analysis ended without an error, and no window of its report has a score below the threshold.
  pub run_entropy-Passed :
      (args : EntropyArgs F) (sys : Inputs) (t : F)
      → args.threshold ≡ some t
      → (run_entropy c f64_min args sys).1 ≡ ok success
      → Passed c args sys t
  unfolding run_entropy ◌>>◌ min_window_entropy
  run_entropy-Passed args sys t wanted h =
      let (stream, opened, h1) = bind-ok (open_stream c f64_min args sys) _ h in
      let (analysed, read, h2) =
        bind-ok (or_panicked (analyze_stream floats stream.0 args.window_size stream.1)) _ h1 in
      let (scores, scored, h3) = bind-ok (or_bail analysed io c.os_text) _ h2 in
      let (u, told, h4) = bind-ok (report_scores c f64_min scores) _ h3 in
      let high = check_threshold-success t _ (rw wanted at h4) in
      record {
        stream = stream;
        requested = open_stream-Requested args sys args.input refl opened;
        scores = scores;
        analysed = is_some _ read ∙ ap some (is_ok analysed scored);
        none_below =
            (min_window-NoneBelow none scores.windows t
              (λ m e. subst (λ o. floats.lt (min_or_zero floats o) t ≡ false) e high)).0;
      }
    where
      is_some : {A : Type 0} {a : A} (o : Option A) → (or_panicked {F = F} o).1 ≡ ok a → o ≡ some a
      is_some (some b) e = ap some (ok_injective e)
      is_some none e = absurd (not_ok e)

      is_ok :
          {A : Type 0} {a : A} (r : Result ℕ A)
          → (or_bail {F = F} r io c.os_text).1 ≡ ok a
          → r ≡ ok a
      is_ok (ok b) e = ap ok (ok_injective e)
      is_ok (err x) e = absurd (not_ok e)
