-- ===== src/Entropy/Streaming.antt =====
-- crates/nocap-crypt-entropy/src/streaming.rs: the scores of a stream, window by window.
pub mod Report
use nocap_crypt.Base.{
  ℕ, zero, suc, ◌+◌, ◌-◌, ◌^◌, ◌%◌, ◌≤◌, ◌<◌, ◌≡◌, ◌≢◌, refl, sym, ap, ap₂, ◌∙◌, ◌⊎◌, inl, inr, min,
  Bool, true, false, List, [], ◌∷◌, ◌++◌, length, take, drop, length-take, length-drop,
  take-append-drop, append_assoc, append-nil, drop-drop, take-take_add, take_all, eq-nil, ltb, ◌==◌,
  if◌then◌else◌, Bool-cases, ltb→lt, ltb→ge, Option, none, some, arith,
}
use native.Mathlib.Decide.{dec_lt}
use nocap_crypt.Base.Result.{Result, ok, err, ◌>>=◌, Result-cases, ok_injective, not_ok}
use nocap_crypt.Entropy.Floats.{Floats}
use nocap_crypt.Entropy.Scores.{
  tally, no_counts, entropy_sum, shannon_entropy, chi_square_statistic, tally-append,
}

-- `Read::read` on a stream with these bytes left, for a number of bytes: how many it gives.
abbrev pub Reader : Type 0
Reader = List ℕ → ℕ → Result ℕ ℕ

-- A read gives no more than was asked for or is left, and nothing only at the end.
pub record IsReader (read : Reader) : Type 0 where
  pub bounded :
      (left : List ℕ) (len : ℕ) {n : ℕ} → read left len ≡ ok n → (n ≤ len) × (n ≤ length left)
  pub progress : (left : List ℕ) (len : ℕ) → read left len ≡ ok 0 → 0 < len → length left ≡ 0

-- The bytes that `read_full` puts into a buffer of `want` bytes, and the stream behind them. A round
-- reads a byte at least, so that `want` rounds are enough.
unfoldable pub read_full : Reader → ℕ → List ℕ → ℕ → Result ℕ (List ℕ × List ℕ)
read_full read zero left want = ok ([], left)
read_full read (suc rounds) left want = elim (if ltb 0 want then read left want else ok 0) [
  | err e ↦ err e
  | ok n ↦ elim n [
    | zero ↦ ok ([], left)
    | suc m ↦ read_full read rounds (drop (suc m) left) (want - suc m) >>= λ more.
        ok (take (suc m) left ++ more.0, more.1)
  ]
]

module _ (read : Reader) (reader : IsReader read) where
  -- A round that read some bytes, then the rest.
  joined :
      (left : List ℕ) (want m : ℕ) (r : Result ℕ (List ℕ × List ℕ)) {out : List ℕ × List ℕ}
      → suc m ≤ want
      → suc m ≤ length left
      → ((rest : List ℕ × List ℕ)
          → r ≡ ok rest
          → (rest.0 ≡ take (want - suc m) (drop (suc m) left))
            × (rest.1 ≡ drop (want - suc m) (drop (suc m) left)))
      → (r >>= λ more. ok (take (suc m) left ++ more.0, more.1)) ≡ ok out
      → (out.0 ≡ take want left) × (out.1 ≡ drop want left)
  joined left want m (err x) h k ih e = absurd (not_ok e)
  joined left want m (ok rest) h k ih e =
      let same = ok_injective e in
      let (front, back) = ih rest refl in
      let size : length (take (suc m) left) ≡ suc m = omega (arith, length-take (suc m) left) in
      (
        ap (λ o. o.0) (sym same)
            ∙ ap (λ t. take (suc m) left ++ t) front
            ∙ take-take_add (suc m) (want - suc m) want left (omega arith),
        ap (λ o. o.1) (sym same) ∙ back ∙ drop-drop (suc m) (want - suc m) want left (omega arith),
      )

  -- A buffer that is full, or a stream that is at its end.
  stopped :
      (left : List ℕ) (want : ℕ) {out : List ℕ × List ℕ}
      → (want ≡ 0) ⊎ (length left ≡ 0)
      → ([], left) ≡ out
      → (out.0 ≡ take want left) × (out.1 ≡ drop want left)
  stopped left want (inl full) e = (
    ap (λ o. o.0) (sym e) ∙ ap (λ n. take n left) (sym full),
    ap (λ o. o.1) (sym e) ∙ ap (λ n. drop n left) (sym full),
  )
  stopped left want (inr ended) e = (
    ap (λ o. o.0) (sym e) ∙ sym (eq-nil (take want left) (omega (arith, length-take want left))),
    ap (λ o. o.1) (sym e)
        ∙ eq-nil left ended
        ∙ sym (eq-nil (drop want left) (omega (arith, length-drop want left))),
  )

  -- What one round of `read_full` adds, after a read that came to `q`.
  after_read :
      (rounds : ℕ) (left : List ℕ) (want : ℕ) {out : List ℕ × List ℕ} (q : Result ℕ ℕ)
      → ((n : ℕ) → q ≡ ok n → (n ≤ want) × (n ≤ length left))
      → (q ≡ ok 0 → (want ≡ 0) ⊎ (length left ≡ 0))
      → ((m : ℕ)
          → suc m ≤ want
          → (rest : List ℕ × List ℕ)
          → read_full read rounds (drop (suc m) left) (want - suc m) ≡ ok rest
          → (rest.0 ≡ take (want - suc m) (drop (suc m) left))
            × (rest.1 ≡ drop (want - suc m) (drop (suc m) left)))
      → (elim q [
        | err e ↦ err e
        | ok n ↦ elim n [
          | zero ↦ ok ([], left)
          | suc m ↦ read_full read rounds (drop (suc m) left) (want - suc m) >>= λ more.
              ok (take (suc m) left ++ more.0, more.1)
        ]
      ])
        ≡ ok out
      → (out.0 ≡ take want left) × (out.1 ≡ drop want left)
  after_read rounds left want (err x) bound stop ih e = absurd (not_ok e)
  after_read rounds left want (ok zero) bound stop ih e =
      stopped left want (stop refl) (ok_injective e)
  after_read rounds left want (ok (suc m)) bound stop ih e =
      let (h, k) = bound (suc m) refl in
      joined left want m (read_full read rounds (drop (suc m) left) (want - suc m)) h k (ih m h) e

  -- The bytes that `read_full` puts into its buffer are the next of the stream; it stops short of a
  -- full buffer only at the end of the stream.
  pub read_full_lem :
      (rounds : ℕ) (left : List ℕ) (want : ℕ) {out : List ℕ × List ℕ}
      → want ≤ rounds
      → read_full read rounds left want ≡ ok out
      → (out.0 ≡ take want left) × (out.1 ≡ drop want left)
  unfolding read_full
  read_full_lem zero left want h e = stopped left want (inl (omega arith)) (ok_injective e)
  read_full_lem (suc rounds) left want h e =
      after_read rounds left want (if ltb 0 want then read left want else ok 0) bound stop
        (λ m k rest e'. read_full_lem rounds (drop (suc m) left) (want - suc m) (omega arith) e') e
    where
      bound :
          (n : ℕ)
          → (if ltb 0 want then read left want else ok 0) ≡ ok n
          → (n ≤ want) × (n ≤ length left)
      bound n q = elim (Bool-cases (ltb 0 want)) [
        | inl more ↦ reader.bounded left want (rw more at q)
        | inr full ↦
            let none_read : 0 ≡ n = ok_injective (rw full at q) in (omega arith, omega arith)
      ]

      stop : (if ltb 0 want then read left want else ok 0) ≡ ok 0 → (want ≡ 0) ⊎ (length left ≡ 0)
      stop q = elim (Bool-cases (ltb 0 want)) [
        | inl more ↦ inr (reader.progress left want (rw more at q) (ltb→lt 0 want more))
        | inr full ↦ inl (ground (arith, ltb→ge 0 want full))
      ]

pub record WindowScore (fl : Floats) : Type 0 where
  pub window_index : ℕ
  pub offset : ℕ
  pub len : ℕ
  pub shannon_bits_per_byte : fl.F
  pub chi_square : fl.F

pub record StreamEntropyReport (fl : Floats) : Type 0 where
  pub windows : List (WindowScore fl)
  pub overall_shannon_bits_per_byte : fl.F
  pub total_bytes : ℕ

-- What the loop of `analyze_stream` carries.
pub record Progress (fl : Floats) : Type 0 where
  pub windows : List (WindowScore fl)
  pub offset : ℕ
  pub global_counts : List ℕ
  pub total_bytes : ℕ
  pub window_index : ℕ

module _ (fl : Floats) (read : Reader) (window_size : ℕ) where
  -- The body of the loop for a chunk that is not empty.
  unfoldable pub score_window : Progress fl → List ℕ → Progress fl
  score_window st chunk = record {
    windows =
        st.windows
        ++ (record {
          window_index = st.window_index;
          offset = st.offset;
          len = length chunk;
          shannon_bits_per_byte = shannon_entropy fl chunk;
          chi_square = chi_square_statistic fl chunk;
        }
            ∷ []);
    offset = st.offset + length chunk;
    global_counts = tally st.global_counts chunk;
    total_bytes = st.total_bytes + length chunk;
    window_index = st.window_index + 1;
  }

  -- The loop, with a round for each window that is left.
  unfoldable pub stream_loop : ℕ → List ℕ → Progress fl → Result ℕ (Progress fl)
  stream_loop zero left st = ok st
  stream_loop (suc rounds) left st = elim (read_full read window_size left window_size) [
    | err e ↦ err e
    | ok (chunk, rest) ↦
        let more = stream_loop rounds rest (score_window st chunk) in
        if length chunk == 0
        then ok st
        else if ltb (length chunk) window_size
        then ok (score_window st chunk)
        else more
  ]

  -- `analyze_stream` of a stream of these bytes; `none` is the panic of its `assert!`.
  unfoldable pub analyze_stream : List ℕ → Option (Result ℕ (StreamEntropyReport fl))
  analyze_stream left =
      if ltb 0 window_size
      then some (
          stream_loop (suc (length left)) left (record {
            windows = [];
            offset = 0;
            global_counts = no_counts;
            total_bytes = 0;
            window_index = 0;
          })
          >>= λ st. ok (record {
            windows = st.windows;
            overall_shannon_bits_per_byte =
                if st.total_bytes == 0
                then fl.of_nat 0
                else entropy_sum fl st.global_counts st.total_bytes;
            total_bytes = st.total_bytes;
          }))
      else none
