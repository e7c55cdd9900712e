-- ===== src/Worker/Dispatch/Chunks.antt =====
-- `chunk_ranges` tiles the sectors of the data.
use nocap_crypt.Base.{
  ℕ, zero, suc, ◌+◌, ◌-◌, ◌*◌, ◌≤◌, ◌<◌, ◌≡◌, refl, min, some, List, [], ◌∷◌, ltb, arith,
  Bool-cases, inl, inr, ltb→lt, ltb→ge,
}
use nocap_crypt.Core.Iv.{sector_size}
use nocap_crypt.Worker.Dispatch.{SectorRange, sectors_of, chunk_loop, chunk_ranges}

-- The ranges follow one another from `start` to `end` without gap or overlap; none is empty, and
-- none is longer than a chunk.
abbrev pub Tiles : ℕ → List SectorRange → ℕ → ℕ → Type 0
Tiles chunk [] start end = start ≡ end
Tiles chunk (r ∷ rs) start end =
    (r.first_sector ≡ start)
    × (0 < r.sector_count)
    × (r.sector_count ≤ chunk)
    × Tiles chunk rs (start + r.sector_count) end

pub Tiles-le :
    (chunk : ℕ) (rs : List SectorRange) (from total : ℕ) → Tiles chunk rs from total → from ≤ total
Tiles-le chunk [] from total h = omega arith
Tiles-le chunk (r ∷ rs) from total h =
    omega (arith, Tiles-le chunk rs (from + r.sector_count) total h.3)

chunk_loop-Tiles :
    (fuel chunk total start : ℕ)
    → 0 < chunk
    → start ≤ total
    → total - start ≤ fuel
    → Tiles chunk (chunk_loop fuel chunk total start) start total
unfolding chunk_loop
chunk_loop-Tiles zero chunk total start pos h k = omega arith
chunk_loop-Tiles (suc fuel) chunk total start pos h k = elim (Bool-cases (ltb start total)) [
  | inl more ↦ rw more (
    refl,
    ground (arith, ltb→lt start total),
    omega arith,
    chunk_loop-Tiles fuel chunk total (start + min chunk (total - start)) pos (omega arith)
        (ground (arith, ltb→lt start total)),
  )
  | inr done ↦ rw done (omega (arith, ltb→ge start total done))
]

-- For a nonzero chunk size the call succeeds, and its ranges tile the sectors that hold the data:
-- the last one is the first whose end is at or past the data's end.
pub chunk_ranges-Tiles :
    (data_len chunk : ℕ)
    → 0 < chunk
    → (rs : List SectorRange) × (chunk_ranges data_len chunk ≡ some rs)
      × Tiles chunk rs 0 (sectors_of data_len)
      × (data_len ≤ sector_size * sectors_of data_len)
      × (sector_size * sectors_of data_len < data_len + sector_size)
unfolding chunk_ranges
chunk_ranges-Tiles data_len chunk pos =
    let total = sectors_of data_len in
    (
      chunk_loop total chunk total 0,
      ground arith,
      chunk_loop-Tiles total chunk total 0 pos (omega arith) (omega arith),
      omega arith,
      omega arith,
    )
