-- ===== src/Worker/Dispatch/Pool/Progress.antt =====
-- With a reliable system every way of running the jobs comes to its end.
use nocap_crypt.Base.{
  ℕ, ◌+◌, ◌*◌, ◌%◌, ◌^◌, ◌≤◌, ◌<◌, ◌≡◌, refl, sym, ap, ◌∙◌, subst, Bool, List, [], ◌∷◌, ◌++◌,
  length, drop, length-take, length-drop, arith,
}
use nocap_crypt.Base.Bytes.{IsBytes}
use nocap_crypt.Base.Result.{ok, ok_injective}
use nocap_crypt.Core.Iv.{sector_size}
use nocap_crypt.Core.Primitives.{Primitives, IsLawful}
use nocap_crypt.Core.Engine.{SectorEngine}
use nocap_crypt.Core.Engine.Laws.Keyed.{IsKeyed}
use nocap_crypt.Blockio.SectorIo.{Os, IsPosix, IsReliable, SectorFile}
use nocap_crypt.Blockio.SectorIo.Exact.{write_at-le}
use nocap_crypt.Blockio.SectorIo.Reliable.{not_FailedRead, write_at-ok, write_at_exact-ok}
use nocap_crypt.Worker.Dispatch.{
  SectorRange, Transfer, byte_offset, byte_len, add_progress, prepare, process_one_range,
  process_in_order,
}
use nocap_crypt.Worker.Dispatch.Target.{
  target, target-IsBytes, part, prepared, unreadable, prepare-Prepared,
}
use nocap_crypt.Worker.Dispatch.Pool.{Task, pending, writing, Pool, Step, begin, write, finish}
use nocap_crypt.Worker.Dispatch.Pool.Tasks.{IsOnTarget, AllOnTarget, IsOnTarget-at}

-- How many steps a task can still make, at most.
abbrev pub steps_left : Task → ℕ
steps_left (pending r) = sector_size * r.sector_count + 2
steps_left (writing r off buf) = length buf + 1

unfoldable pub measure : List Task → ℕ
measure [] = 0
measure (t ∷ ts) = steps_left t + measure ts

measure_at :
    (before after : List Task) (t : Task)
    → measure (before ++ (t ∷ after)) ≡ steps_left t + measure (before ++ after)
unfolding measure
measure_at [] after t = refl
measure_at (b ∷ before) after t = omega (arith, measure_at before after t)

-- All ranges lie within the data.
abbrev pub AllWithin : ℕ → List SectorRange → Type 0
AllWithin total [] = Unit {0}
AllWithin total (r ∷ rs) = (r.first_sector + r.sector_count ≤ total) × AllWithin total rs

module _ (p : Primitives) (lawful : IsLawful p) (engine : SectorEngine) (keyed : IsKeyed engine)
    (os : Os) (posix : IsPosix os) (reliable : IsReliable os) (encrypt : Bool) (data_len total : ℕ)
    (input : SectorFile) (bytes : IsBytes input.file) (long : data_len ≤ length input.file)
    (small : sector_size * total < 2 ^ 64) where
  prepare-ok :
      (range : SectorRange)
      → range.first_sector + range.sector_count ≤ total
      → (buf : List ℕ) × (prepare os p engine data_len encrypt input range ≡ ok buf)
        × (length buf ≡ sector_size * range.sector_count)
  prepare-ok range h =
      let T = target p lawful engine keyed encrypt data_len total input.file in
      let size = (target-IsBytes p lawful engine keyed encrypt data_len total input.file bytes).0 in
      elim (prepare-Prepared p lawful engine keyed os posix encrypt data_len total input bytes long
        small range h) [
          | prepared e ↦ (
            part p lawful engine keyed encrypt data_len total input.file range,
            e,
            omega (
              arith,
              size,
              length-take (512 * range.sector_count) (drop (512 * range.first_sector) T),
              length-drop (512 * range.first_sector) T,
            ),
          )
          | unreadable n e f ↦ absurd (not_FailedRead os reliable input.file n f)
        ]

  -- `Synchronous` dispatch of ranges within the data returns `Ok`.
  pub process_in_order-ok :
      (ranges : List SectorRange) (t : Transfer)
      → AllWithin total ranges
      → (t' : Transfer) × (process_in_order os p engine data_len encrypt input ranges t ≡ ok t')
  unfolding process_in_order process_one_range
  process_in_order-ok [] t h = (t, refl)
  process_in_order-ok (range ∷ ranges) t h =
      let (buf, e, size) = prepare-ok range h.0 in
      let (sf, e') = write_at_exact-ok os reliable posix t.output (byte_offset range) buf in
      let t1 : Transfer = record {
        output = sf;
        progress = add_progress t.progress (byte_len range);
      } in
      let (t', rest) = process_in_order-ok ranges t1 h.1 in (t', rw (e, e') rest)

  -- A pool whose first task is on target can make a step.
  pub Step-exists :
      (T : List ℕ) (s : Pool) (task : Task) (after : List Task)
      → s.tasks ≡ task ∷ after
      → IsOnTarget T total task
      → (u : Pool) × Step os p engine data_len encrypt input s u
  Step-exists T s (pending range) after focus h =
      let (buf, e, size) = prepare-ok range h in (_, begin [] after range buf focus e)
  Step-exists T s (writing range off []) after focus h = (_, finish [] after range off focus)
  Step-exists T s (writing range off (b ∷ bs)) after focus h =
      let (n, e, progress) = write_at-ok os reliable s.transfer.output off (b ∷ bs) in
      (_, write [] after range off (b ∷ bs) n focus (omega arith) e (progress (omega arith)))

  -- Every step leaves fewer to make.
  pub Step-measure :
      (T : List ℕ) {s u : Pool}
      → AllOnTarget T total s.tasks
      → Step os p engine data_len encrypt input s u
      → measure u.tasks < measure s.tasks
  Step-measure T targets (begin before after range buf focus e) =
      let (buf', e', size) = prepare-ok range (
        IsOnTarget-at T total before after (pending range)
          (subst (AllOnTarget T total) focus targets)) in
      let same : buf' ≡ buf = ok_injective (sym e' ∙ e) in
      omega (
        arith,
        ap measure focus,
        ap length same,
        size,
        measure_at before after (pending range),
        measure_at before after (writing range (byte_offset range) buf),
      )
  Step-measure T targets (write {s} before after range off buf n focus more e pos) = omega (
    arith,
    ap measure focus,
    write_at-le os posix s.transfer.output off buf e,
    length-drop n buf,
    measure_at before after (writing range off buf),
    measure_at before after (writing range ((off + n) % 2 ^ 64) (drop n buf)),
  )
  Step-measure T targets (finish before after range off focus) =
      omega (arith, ap measure focus, measure_at before after (writing range off []))
