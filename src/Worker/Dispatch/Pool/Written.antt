-- ===== src/Worker/Dispatch/Pool/Written.antt =====
-- What one write does to the bytes of the target.
use native.Mathlib.Decide.{dec_lt}
use nocap_crypt.Base.{
  ℕ, ◌+◌, ◌-◌, ◌*◌, ◌%◌, ◌^◌, ◌≤◌, ◌<◌, ◌≡◌, sym, ap, ◌∙◌, ◌⊎◌, inl, inr, List, ◌∷◌, ◌++◌, length,
  take, drop, get_elem?, length-take, length-drop, get_elem?-take, get_elem?-drop, get_elem?-none,
  get_elem?-ne-none, arith,
}
use nocap_crypt.Core.Iv.{sector_size}
use nocap_crypt.Blockio.SectorIo.{splice}
use nocap_crypt.Blockio.SectorIo.Splice.{get_elem?-splice}
use nocap_crypt.Worker.Dispatch.{SectorRange}
use nocap_crypt.Worker.Dispatch.Pool.{Task, writing}
use nocap_crypt.Worker.Dispatch.Pool.Tasks.{Covers, CoveredBy, covered_replace, IsOnTarget}

module _ (T : List ℕ) (total : ℕ) (exact : length T ≡ sector_size * total)
    (small : sector_size * total < 2 ^ 64) where
  -- The bytes that a write takes are the target's afterwards.
  written :
      (file : List ℕ) (range : SectorRange) (off n : ℕ) (buf : List ℕ) (i : ℕ)
      → IsOnTarget T total (writing range off buf)
      → n ≤ length buf
      → off ≤ i
      → i < off + n
      → get_elem? (splice file off (take n buf)) i ≡ get_elem? T i
  written file range off n buf i h le lo hi =
      let back : off + (i - off) ≡ i = omega arith in
      ground (
        arith,
        get_elem?-splice file off (take n buf) i,
        length-take n buf,
        get_elem?-take n buf (i - off),
        h.1 (i - off),
        ap (get_elem? T) back,
      )

  -- The others stay; a gap, which the write fills with zeros, has none of the target's.
  untouched :
      (file : List ℕ) (off n : ℕ) (buf : List ℕ) (i : ℕ)
      → n ≤ length buf
      → i < length T
      → (i < off) ⊎ (off + n ≤ i)
      → get_elem? file i ≡ get_elem? T i
      → get_elem? (splice file off (take n buf)) i ≡ get_elem? T i
  untouched file off n buf i le lt out same = ground (
    arith,
    get_elem?-splice file off (take n buf) i,
    length-take n buf,
    get_elem?-none file i,
    get_elem?-ne-none T i lt,
  )

  -- What is left of a write is on target, and covers what was covered and is not written now.
  pub rest-IsOnTarget :
      (range : SectorRange) (off n : ℕ) (buf : List ℕ)
      → IsOnTarget T total (writing range off buf)
      → n ≤ length buf
      → IsOnTarget T total (writing range ((off + n) % 2 ^ 64) (drop n buf))
  rest-IsOnTarget range off n buf h le =
      let sum : (off + n) % 2 ^ 64 ≡ off + n = omega (arith, h.0, exact) in
      (
        omega (arith, sum, h.0, length-drop n buf),
        λ j k.
            let index : (off + n) % 2 ^ 64 + j ≡ off + (n + j) = omega (arith, sum) in
            get_elem?-drop n buf j
            ∙ h.1 (n + j) (omega (arith, length-drop n buf))
            ∙ ap (get_elem? T) (sym index),
      )

  rest-Covers :
      (range : SectorRange) (off n : ℕ) (buf : List ℕ) (i : ℕ)
      → IsOnTarget T total (writing range off buf)
      → n ≤ length buf
      → (i < off) ⊎ (off + n ≤ i)
      → Covers (writing range off buf) i
      → Covers (writing range ((off + n) % 2 ^ 64) (drop n buf)) i
  rest-Covers range off n buf i h le out c =
      let sum : (off + n) % 2 ^ 64 ≡ off + n = omega (arith, h.0, exact) in
      omega (arith, sum, length-drop n buf, c.0, c.1, out)

  write_outside :
      (before after : List Task) (range : SectorRange) (off : ℕ) (buf : List ℕ) (n i : ℕ)
      (file : List ℕ)
      → IsOnTarget T total (writing range off buf)
      → n ≤ length buf
      → i < length T
      → (i < off) ⊎ (off + n ≤ i)
      → (get_elem? file i ≡ get_elem? T i) ⊎ CoveredBy (before ++ (writing range off buf ∷ after)) i
      → (get_elem? (splice file off (take n buf)) i ≡ get_elem? T i)
        ⊎ CoveredBy (before ++ (writing range ((off + n) % 2 ^ 64) (drop n buf) ∷ after)) i
  write_outside before after range off buf n i file on le lt out (inl done) =
      inl (untouched file off n buf i le lt out done)
  write_outside before after range off buf n i file on le lt out (inr c) =
      elim (covered_replace {Q = ⊥} before after (writing range off buf)
        (writing range ((off + n) % 2 ^ 64) (drop n buf)) i
        (λ c. inl (rest-Covers range off n buf i on le out c)) c) [
          | inl c' ↦ inr c'
          | inr q ↦ absurd q
        ]

  pub write_inside :
      (before after : List Task) (range : SectorRange) (off : ℕ) (buf : List ℕ) (n i : ℕ)
      (file : List ℕ)
      → IsOnTarget T total (writing range off buf)
      → n ≤ length buf
      → i < length T
      → (get_elem? file i ≡ get_elem? T i) ⊎ CoveredBy (before ++ (writing range off buf ∷ after)) i
      → (get_elem? (splice file off (take n buf)) i ≡ get_elem? T i)
        ⊎ CoveredBy (before ++ (writing range ((off + n) % 2 ^ 64) (drop n buf) ∷ after)) i
  write_inside before after range off buf n i file on le lt was = elim (dec_lt i off) [
    | yes below ↦ write_outside before after range off buf n i file on le lt (inl below) was
    | no from ↦ elim (dec_lt i (off + n)) [
      | yes in_front ↦ inl (written file range off n buf i on le (omega arith) in_front)
      | no above ↦
          write_outside before after range off buf n i file on le lt (inr (omega arith)) was
    ]
  ]
