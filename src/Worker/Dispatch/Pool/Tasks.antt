-- ===== src/Worker/Dispatch/Pool/Tasks.antt =====
-- Lists of tasks: which bytes they have still to write, and what holds of each, with one task in
-- focus.
use nocap_crypt.Base.{
  ℕ, ◌+◌, ◌*◌, ◌≤◌, ◌<◌, ◌≡◌, ◌⊎◌, inl, inr, List, [], ◌∷◌, ◌++◌, length, get_elem?, arith,
}
use nocap_crypt.Core.Iv.{sector_size}
use nocap_crypt.Worker.Dispatch.{SectorRange, byte_len}
use nocap_crypt.Worker.Dispatch.Pool.{Task, pending, writing}

-- The task is still to write the byte at `i`.
abbrev pub Covers : Task → ℕ → Type 0
Covers (pending r) i =
    (sector_size * r.first_sector ≤ i) × (i < sector_size * (r.first_sector + r.sector_count))
Covers (writing r off buf) i = (off ≤ i) × (i < off + length buf)

abbrev pub CoveredBy : List Task → ℕ → Type 0
CoveredBy [] i = ⊥
CoveredBy (t ∷ ts) i = Covers t i ⊎ CoveredBy ts i

pub covered_replace {ℓ} :
    {Q : Type ℓ} (before after : List Task) (t t' : Task) (i : ℕ)
    → (Covers t i → Covers t' i ⊎ Q)
    → CoveredBy (before ++ (t ∷ after)) i
    → CoveredBy (before ++ (t' ∷ after)) i ⊎ Q
covered_replace [] after t t' i f (inl c) = elim (f c) [ inl c' ↦ inl (inl c') | inr q ↦ inr q ]
covered_replace [] after t t' i f (inr cs) = inl (inr cs)
covered_replace (b ∷ before) after t t' i f (inl c) = inl (inl c)
covered_replace (b ∷ before) after t t' i f (inr cs) =
    elim (covered_replace before after t t' i f cs) [ inl cs' ↦ inl (inr cs') | inr q ↦ inr q ]

pub covered_remove :
    (before after : List Task) (t : Task) (i : ℕ)
    → ¬ Covers t i
    → CoveredBy (before ++ (t ∷ after)) i
    → CoveredBy (before ++ after) i
covered_remove [] after t i f (inl c) = absurd (f c)
covered_remove [] after t i f (inr cs) = cs
covered_remove (b ∷ before) after t i f (inl c) = inl c
covered_remove (b ∷ before) after t i f (inr cs) = inr (covered_remove before after t i f cs)

module _ (T : List ℕ) (total : ℕ) where
  -- The range lies in the data, and the bytes that are still to be written are the target's.
  abbrev pub IsOnTarget : Task → Type 0
  IsOnTarget (pending r) = r.first_sector + r.sector_count ≤ total
  IsOnTarget (writing r off buf) =
      (off + length buf ≤ length T)
      × ((j : ℕ) → j < length buf → get_elem? buf j ≡ get_elem? T (off + j))

  abbrev pub AllOnTarget : List Task → Type 0
  AllOnTarget [] = Unit {0}
  AllOnTarget (t ∷ ts) = IsOnTarget t × AllOnTarget ts

  pub IsOnTarget-at :
      (before after : List Task) (t : Task) → AllOnTarget (before ++ (t ∷ after)) → IsOnTarget t
  IsOnTarget-at [] after t h = h.0
  IsOnTarget-at (b ∷ before) after t h = IsOnTarget-at before after t h.1

  pub on_target_replace :
      (before after : List Task) (t t' : Task)
      → IsOnTarget t'
      → AllOnTarget (before ++ (t ∷ after))
      → AllOnTarget (before ++ (t' ∷ after))
  on_target_replace [] after t t' k h = (k, h.1)
  on_target_replace (b ∷ before) after t t' k h = (h.0, on_target_replace before after t t' k h.1)

  pub on_target_remove :
      (before after : List Task) (t : Task)
      → AllOnTarget (before ++ (t ∷ after))
      → AllOnTarget (before ++ after)
  on_target_remove [] after t h = h.1
  on_target_remove (b ∷ before) after t h = (h.0, on_target_remove before after t h.1)

-- The bytes that are still to be counted.
abbrev pub task_range : Task → SectorRange
task_range (pending r) = r
task_range (writing r off buf) = r

unfoldable pub uncounted : List Task → ℕ
uncounted [] = 0
uncounted (t ∷ ts) = byte_len (task_range t) + uncounted ts

pub uncounted_at :
    (before after : List Task) (t : Task)
    → uncounted (before ++ (t ∷ after)) ≡ byte_len (task_range t) + uncounted (before ++ after)
unfolding uncounted
uncounted_at [] after t = ground arith
uncounted_at (b ∷ before) after t = omega (arith, uncounted_at before after t)
