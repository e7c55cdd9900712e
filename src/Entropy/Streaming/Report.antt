-- ===== src/Entropy/Streaming/Report.antt =====
-- `analyze_stream` scores every byte of the stream once, in windows, and as a whole.
use nocap_crypt.Base.{
  ℕ, zero, suc, ◌+◌, ◌<◌, ◌≡◌, refl, sym, ap, ap₂, ◌∙◌, subst, inl, inr, List, [], ◌∷◌, ◌++◌,
  length, take, drop, length-take, length-drop, take-append-drop, append_assoc, append-nil, eq-nil,
  ltb, ◌==◌, if◌then◌else◌, Bool-cases, lt→ltb, some, some_injective, arith,
}
use nocap_crypt.Base.Result.{ok, Result-cases, ok_injective, not_ok}
use nocap_crypt.Entropy.Floats.{Floats}
use nocap_crypt.Entropy.Scores.{
  tally, no_counts, entropy_sum, shannon_entropy, chi_square_statistic, tally-append,
}
use nocap_crypt.Entropy.Streaming.{
  Reader, IsReader, read_full, read_full_lem, WindowScore, StreamEntropyReport, Progress,
  score_window, stream_loop, analyze_stream,
}

module _ (fl : Floats) (read : Reader) (reader : IsReader read) (window_size : ℕ)
    (pos : 0 < window_size) where
  -- The score of a window with this content.
  abbrev pub scored : ℕ → ℕ → List ℕ → WindowScore fl
  scored index offset chunk = record {
    window_index = index;
    offset = offset;
    len = length chunk;
    shannon_bits_per_byte = shannon_entropy fl chunk;
    chi_square = chi_square_statistic fl chunk;
  }

  -- The windows follow one another through the whole stream; all are full but the last, and none is
  -- empty.
  abbrev pub Scored : List ℕ → ℕ → ℕ → List (WindowScore fl) → Type 0
  Scored left index offset [] = left ≡ []
  Scored left index offset (w ∷ ws) =
      (0 < length left)
      × (w ≡ scored index offset (take window_size left))
      × Scored (drop window_size left) (index + 1) (offset + length (take window_size left)) ws

  -- What the loop makes of the bytes that are left.
  record Consumed (left : List ℕ) (st st' : Progress fl) : Type 0 where
    new_windows : List (WindowScore fl)
    appended : st'.windows ≡ st.windows ++ new_windows
    all_scored : Scored left st.window_index st.offset new_windows
    counted : st'.global_counts ≡ tally st.global_counts left
    summed : st'.total_bytes ≡ st.total_bytes + length left

  at_end : (left : List ℕ) (st : Progress fl) → left ≡ [] → Consumed left st st
  unfolding tally
  at_end left st e = record {
    new_windows = [];
    appended = sym (append-nil st.windows);
    all_scored = e;
    counted = ap (tally st.global_counts) (sym e);
    summed = omega (arith, ap length e);
  }

  one_window :
      (left : List ℕ) (st st' : Progress fl)
      → 0 < length left
      → Consumed
          (drop window_size left)
          (score_window fl read window_size st (take window_size left))
          st'
      → Consumed left st st'
  unfolding score_window
  one_window left st st' some_left c =
      let chunk = take window_size left in
      let rest = drop window_size left in
      record {
        new_windows = scored st.window_index st.offset chunk ∷ c.new_windows;
        appended = c.appended ∙ append_assoc st.windows _ c.new_windows;
        all_scored = (some_left, refl, c.all_scored);
        counted =
            c.counted
            ∙ sym (tally-append st.global_counts chunk rest)
            ∙ ap (tally st.global_counts) (take-append-drop window_size left);
        summed =
            omega (arith, c.summed, length-take window_size left, length-drop window_size left);
      }

  -- A round of the loop, with what the rest of it does.
  chunked :
      (rounds : ℕ) (left : List ℕ) (st : Progress fl) {st' : Progress fl}
      → ((next : Progress fl)
          → 0 < length left
          → stream_loop fl read window_size rounds (drop window_size left) next ≡ ok st'
          → Consumed (drop window_size left) next st')
      → (if length (take window_size left) == 0
          then ok st
          else if ltb (length (take window_size left)) window_size
          then ok (score_window fl read window_size st (take window_size left))
          else stream_loop fl read window_size rounds
              (drop window_size left)
              (score_window fl read window_size st (take window_size left)))
        ≡ ok st'
      → Consumed left st st'
  chunked rounds left st {st'} ih e = elim (Bool-cases (length (take window_size left) == 0)) [
    | inl empty ↦
        subst (λ (s : Progress fl). Consumed left st s) (ok_injective (rw empty at e))
          (at_end left st (eq-nil left (ground (arith, length-take window_size left))))
    | inr some_read ↦
        let some_left : 0 < length left = ground (arith, length-take window_size left) in
        let next = score_window fl read window_size st (take window_size left) in
        one_window left st st' some_left
          (elim (Bool-cases (ltb (length (take window_size left)) window_size)) [
            | inl last ↦
                subst (λ (s : Progress fl). Consumed (drop window_size left) next s)
                  (ok_injective (rw (some_read, last) at e))
                  (at_end (drop window_size left) next (
                    eq-nil (drop window_size left)
                      (ground (arith, length-take window_size left, length-drop window_size left))))
            | inr full ↦ ih next some_left (rw (some_read, full) at e)
          ])
  ]

  stream_loop-Consumed :
      (rounds : ℕ) (left : List ℕ) (st : Progress fl) {st' : Progress fl}
      → length left < rounds
      → stream_loop fl read window_size rounds left st ≡ ok st'
      → Consumed left st st'
  unfolding stream_loop
  stream_loop-Consumed zero left st h e = absurd (omega arith)
  stream_loop-Consumed (suc rounds) left st {st'} h e =
      elim (Result-cases (read_full read window_size left window_size)) [
        | inr (x, bad) ↦ absurd (not_ok (rw (stream_loop, bad) at e))
        | inl (out, good) ↦
            let (front, back) =
              read_full_lem read reader window_size left window_size (omega arith) good in
            chunked rounds left st
              (λ next some_left e'.
                stream_loop-Consumed rounds (drop window_size left) next
                  (omega (arith, length-drop window_size left)) e')
              (rw (stream_loop, good, front, back) at e)
      ]

  -- The report of a run of the loop from the start.
  reported :
      (left : List ℕ) (st : Progress fl) {report : StreamEntropyReport fl}
      → Consumed left
          (record {
            windows = [];
            offset = 0;
            global_counts = no_counts;
            total_bytes = 0;
            window_index = 0;
          })
          st
      → record {
        windows = st.windows;
        overall_shannon_bits_per_byte =
            if st.total_bytes == 0
            then fl.of_nat 0
            else entropy_sum fl st.global_counts st.total_bytes;
        total_bytes = st.total_bytes;
      }
        ≡ report
      → Scored left 0 0 report.windows
        × (report.overall_shannon_bits_per_byte ≡ shannon_entropy fl left)
        × (report.total_bytes ≡ length left)
  unfolding shannon_entropy
  reported left st c e =
      let total : st.total_bytes ≡ length left = omega (arith, c.summed) in
      subst
        (λ (r : StreamEntropyReport fl).
          Scored left 0 0 r.windows
          × (r.overall_shannon_bits_per_byte ≡ shannon_entropy fl left)
          × (r.total_bytes ≡ length left))
        e
        (
          subst (λ (ws : List (WindowScore fl)). Scored left 0 0 ws) (sym c.appended) c.all_scored,
          ap₂ (λ n (cs : List ℕ). if n == 0 then fl.of_nat 0 else entropy_sum fl cs n) total
              c.counted,
          total,
        )

-- If the analysis of a stream ends without an error of the reader, its windows cover the stream
-- without gap or overlap, each with the scores of its own bytes, and the overall figure is the
-- entropy of the whole stream, however the reader cuts its reads.
pub analyze_stream_lem :
    (fl : Floats) (read : Reader) (reader : IsReader read) (window_size : ℕ) (pos : 0 < window_size)
    (left : List ℕ) {report : StreamEntropyReport fl}
    → analyze_stream fl read window_size left ≡ some (ok report)
    → Scored fl read reader window_size pos left 0 0 report.windows
      × (report.overall_shannon_bits_per_byte ≡ shannon_entropy fl left)
      × (report.total_bytes ≡ length left)
unfolding analyze_stream
analyze_stream_lem fl read reader window_size pos left {report} e =
    elim (Result-cases (
      stream_loop fl read window_size (suc (length left)) left (record {
        windows = [];
        offset = 0;
        global_counts = no_counts;
        total_bytes = 0;
        window_index = 0;
      }))) [
        | inl (st, good) ↦
            reported fl read reader window_size pos left st
              (stream_loop-Consumed fl read reader window_size pos (suc (length left)) left _
                (omega arith) good)
              (ok_injective
                (some_injective (rw (analyze_stream, lt→ltb 0 window_size pos, good) at e)))
        | inr (x, bad) ↦
            absurd
              (not_ok (some_injective (rw (analyze_stream, lt→ltb 0 window_size pos, bad) at e)))
      ]
