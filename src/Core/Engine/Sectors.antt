-- ===== src/Core/Engine/Sectors.antt =====
-- The shape of the engine's work: each sector on its own, by a function of its index and bytes.
use nocap_crypt.Base.{
  ℕ, zero, suc, ◌+◌, ◌-◌, ◌*◌, ◌≤◌, ◌≡◌, refl, sym, ap, ap₂, ◌∙◌, List, [], ◌∷◌, ◌++◌, length, take,
  drop, length-append, length-take, length-drop, take-append_self, drop-append_self, take-append,
  drop-append, take-append-drop, append_assoc, arith,
}
use nocap_crypt.Base.Bytes.{IsBytes, append-IsBytes, take-IsBytes, drop-IsBytes}
use nocap_crypt.Core.Iv.{sector_size}

-- `n` sectors from index `i` on; the rest of the buffer stays.
unfoldable pub sectors : (ℕ → List ℕ → List ℕ) → ℕ → ℕ → List ℕ → List ℕ
sectors f zero i buf = buf
sectors f (suc n) i buf = f i (take sector_size buf) ++ sectors f n (i + 1) (drop sector_size buf)

-- The bytes of one sector.
abbrev pub IsSector : List ℕ → Type 0
IsSector s = (length s ≡ sector_size) × IsBytes s

pub take-IsSector : (buf : List ℕ) → IsBytes buf → 512 ≤ length buf → IsSector (take 512 buf)
take-IsSector buf hb hl = (omega (arith, length-take 512 buf), take-IsBytes 512 buf hb)

-- Two functions that agree on sectors.
pub sectors_ext :
    (f g : ℕ → List ℕ → List ℕ) (n i : ℕ) (buf : List ℕ)
    → ((j : ℕ) (s : List ℕ) → IsSector s → f j s ≡ g j s)
    → IsBytes buf
    → sector_size * n ≤ length buf
    → sectors f n i buf ≡ sectors g n i buf
unfolding sectors
sectors_ext f g zero i buf same hb hl = refl
sectors_ext f g (suc n) i buf same hb hl =
    ap₂ ◌++◌ (same i _ (take-IsSector buf hb (omega arith))) (
      sectors_ext f g n (i + 1) (drop 512 buf) same (drop-IsBytes 512 buf hb)
        (omega (arith, length-drop 512 buf)))

module _ (f : ℕ → List ℕ → List ℕ) where
  -- A buffer may be cut between sectors: the parts are done on their own, the second from its own
  -- first index.
  pub sectors-append :
      (m n i : ℕ) (a b : List ℕ)
      → length a ≡ sector_size * m
      → sectors f (m + n) i (a ++ b) ≡ sectors f m i a ++ sectors f n (i + m) b
  unfolding sectors
  sectors-append zero n i [] b h = ap₂ (λ k j. sectors f k j b) (omega arith) (omega arith)
  sectors-append zero n i (x ∷ a) b h = absurd (omega arith)
  sectors-append (suc m) n i a b h =
      let count : suc m + n ≡ suc (m + n) = omega arith in
      let index : i + 1 + m ≡ i + suc m = omega arith in
      ap (λ k. sectors f k i (a ++ b)) count
      ∙ ap₂ (λ x y. f i x ++ sectors f (m + n) (i + 1) y) (take-append 512 a b (omega arith))
          (drop-append 512 a b (omega arith))
      ∙ ap (λ t. f i (take 512 a) ++ t)
          (sectors-append m n (i + 1) (drop 512 a) b (omega (arith, length-drop 512 a))
            ∙ ap (λ j. sectors f m (i + 1) (drop 512 a) ++ sectors f n j b) index)
      ∙ sym (append_assoc (f i (take 512 a)) _ _)

  module _ (keeps : (j : ℕ) (s : List ℕ) → IsSector s → IsSector (f j s)) where
    pub sectors-IsBytes :
        (n i : ℕ) (buf : List ℕ)
        → IsBytes buf
        → sector_size * n ≤ length buf
        → (length (sectors f n i buf) ≡ length buf) × IsBytes (sectors f n i buf)
    unfolding sectors
    sectors-IsBytes zero i buf hb hl = (refl, hb)
    sectors-IsBytes (suc n) i buf hb hl =
        let hs : IsSector (f i (take 512 buf)) = keeps i _ (take-IsSector buf hb (omega arith)) in
        let (len, ok) =
          sectors-IsBytes n (i + 1) (drop 512 buf) (drop-IsBytes 512 buf hb)
            (omega (arith, length-drop 512 buf)) in
        (
          omega (
            arith,
            length-append (f i (take 512 buf)) (sectors f n (i + 1) (drop 512 buf)),
            len,
            hs.0,
            length-drop 512 buf,
          ),
          append-IsBytes (f i (take 512 buf)) _ hs.1 ok,
        )

    -- A function that undoes `f` on sectors undoes its run over the buffer.
    pub sectors_inverse :
        (g : ℕ → List ℕ → List ℕ)
        → ((j : ℕ) (s : List ℕ) → IsSector s → g j (f j s) ≡ s)
        → (n i : ℕ) (buf : List ℕ) → IsBytes buf
        → sector_size * n ≤ length buf
        → sectors g n i (sectors f n i buf) ≡ buf
    unfolding sectors
    sectors_inverse g inv zero i buf hb hl = refl
    sectors_inverse g inv (suc n) i buf hb hl =
        let hs : IsSector (f i (take 512 buf)) = keeps i _ (take-IsSector buf hb (omega arith)) in
        let s = f i (take 512 buf) in
        let rest = sectors f n (i + 1) (drop 512 buf) in
        ap₂ (λ a b. g i a ++ sectors g n (i + 1) b) (take-append_self 512 s rest hs.0)
          (drop-append_self 512 s rest hs.0)
        ∙ ap₂ ◌++◌ (inv i _ (take-IsSector buf hb (omega arith))) (
            sectors_inverse g inv n (i + 1) (drop 512 buf) (drop-IsBytes 512 buf hb)
              (omega (arith, length-drop 512 buf)))
        ∙ take-append-drop 512 buf

    -- Some of the sectors of a run are the run over those sectors of the buffer.
    pub sectors_slice :
        (n s c : ℕ) (buf : List ℕ)
        → IsBytes buf
        → length buf ≡ sector_size * n
        → s + c ≤ n
        → take (sector_size * c) (drop (sector_size * s) (sectors f n 0 buf))
          ≡ sectors f c s (take (sector_size * c) (drop (sector_size * s) buf))
    sectors_slice n s c buf hb hl h =
        let k = n - (s + c) in
        let a = take (512 * s) buf in
        let m = drop (512 * s) buf in
        let b = take (512 * c) m in
        let d = drop (512 * c) m in
        let la : length a ≡ 512 * s = omega (arith, length-take (512 * s) buf) in
        let lb : length b ≡ 512 * c =
          omega (arith, length-take (512 * c) m, length-drop (512 * s) buf) in
        let count : n ≡ s + (c + k) = omega arith in
        let index : 0 + s ≡ s = omega arith in
        let x = sectors f s 0 a in
        let y = sectors f c s b in
        let z = sectors f k (s + c) d in
        let lx : length x ≡ 512 * s =
          omega
            (arith, la, (sectors-IsBytes s 0 a (take-IsBytes (512 * s) buf hb) (omega arith)).0) in
        let ly : length y ≡ 512 * c = omega (
          arith,
          lb,
          (sectors-IsBytes c s b (take-IsBytes (512 * c) m (drop-IsBytes (512 * s) buf hb))
              (omega arith)).0,
        ) in
        let split : sectors f n 0 buf ≡ x ++ (y ++ z) =
          ap₂ (λ j t. sectors f j 0 t) count (sym (take-append-drop (512 * s) buf))
          ∙ sectors-append s (c + k) 0 a m la
          ∙ ap (λ t. x ++ t)
              (ap₂ (λ j t. sectors f (c + k) j t) index (sym (take-append-drop (512 * c) m))
                ∙ sectors-append c k s b d lb) in
        ap (λ t. take (512 * c) (drop (512 * s) t)) split
        ∙ ap (take (512 * c)) (drop-append_self (512 * s) x (y ++ z) lx)
        ∙ take-append_self (512 * c) y z ly
