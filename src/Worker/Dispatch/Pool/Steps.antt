-- ===== src/Worker/Dispatch/Pool/Steps.antt =====
-- Every step of a pool keeps the invariant.
use nocap_crypt.Base.{
  ℕ, ◌+◌, ◌*◌, ◌%◌, ◌^◌, ◌≤◌, ◌<◌, ◌≡◌, sym, ap, ◌∙◌, inl, inr, Bool, List, [], ◌∷◌, ◌++◌, length,
  take, drop, get_elem?, length-take, length-drop, subst, get_elem?-take, get_elem?-drop, arith,
}
use nocap_crypt.Base.Result.{ok}
use nocap_crypt.Core.Iv.{sector_size}
use nocap_crypt.Core.Primitives.{Primitives}
use nocap_crypt.Core.Engine.{SectorEngine}
use nocap_crypt.Blockio.SectorIo.{Os, IsPosix, SectorFile}
use nocap_crypt.Blockio.SectorIo.Splice.{get_elem?-splice}
use nocap_crypt.Blockio.SectorIo.Exact.{write_at-le}
use nocap_crypt.Worker.Dispatch.{
  SectorRange, Transfer, byte_offset, byte_len, add_progress, prepare,
}
use nocap_crypt.Worker.Dispatch.Pool.{
  Task, pending, writing, Pool, wrote, counted, Step, begin, write, finish, Reach, here, next,
}
use nocap_crypt.Worker.Dispatch.Pool.Tasks.{
  CoveredBy, covered_replace, covered_remove, IsOnTarget, AllOnTarget, IsOnTarget-at,
  on_target_replace, on_target_remove, uncounted, uncounted_at,
}
use nocap_crypt.Worker.Dispatch.Pool.Invariant.{Inv, add_progress_twice, add_progress-IsCounter}
use nocap_crypt.Worker.Dispatch.Pool.Written.{rest-IsOnTarget, write_inside}

module _ (os : Os) (posix : IsPosix os) (p : Primitives) (engine : SectorEngine) (data_len : ℕ)
    (encrypt : Bool) (input : SectorFile) (T : List ℕ) (total : ℕ) (start : Transfer) (work : ℕ)
    (exact : length T ≡ sector_size * total) (small : sector_size * total < 2 ^ 64)
    (part_of : (range : SectorRange) (buf : List ℕ)
      → range.first_sector + range.sector_count ≤ total
      → prepare os p engine data_len encrypt input range ≡ ok buf
      → buf
        ≡ take (sector_size * range.sector_count) (drop (sector_size * range.first_sector) T)) where
  -- The buffer of a job that begins is the range's part of the target.
  begun-IsOnTarget :
      (range : SectorRange) (buf : List ℕ)
      → range.first_sector + range.sector_count ≤ total
      → prepare os p engine data_len encrypt input range ≡ ok buf
      → (length buf ≡ sector_size * range.sector_count)
        × IsOnTarget T total (writing range (byte_offset range) buf)
  begun-IsOnTarget range buf h e =
      let slice = take (512 * range.sector_count) (drop (512 * range.first_sector) T) in
      let same : buf ≡ slice = part_of range buf h e in
      let size : length buf ≡ 512 * range.sector_count = omega (
        arith,
        exact,
        ap length same,
        length-take (512 * range.sector_count) (drop (512 * range.first_sector) T),
        length-drop (512 * range.first_sector) T,
      ) in
      let off : byte_offset range ≡ 512 * range.first_sector = omega arith in
      (
        size,
        (
          omega (arith, exact, off, size),
          λ j k. ground (
            arith,
            off,
            ap (λ t. get_elem? t j) same,
            get_elem?-take (512 * range.sector_count) (drop (512 * range.first_sector) T) j,
            get_elem?-drop (512 * range.first_sector) T j,
          ),
        ),
      )

  Step-Inv_begin :
      {s : Pool} (before after : List Task) (range : SectorRange) (buf : List ℕ)
      → s.tasks ≡ before ++ (pending range ∷ after)
      → prepare os p engine data_len encrypt input range ≡ ok buf
      → Inv T total start work s
      → Inv T total start work
          (record s { tasks = before ++ (writing range (byte_offset range) buf ∷ after) })
  Step-Inv_begin {s} before after range buf focus e inv =
      let task = writing range (byte_offset range) buf in
      let targets = subst (AllOnTarget T total) focus inv.on_target in
      let fits = IsOnTarget-at T total before after (pending range) targets in
      let (size, on) = begun-IsOnTarget range buf fits e in
      let off : byte_offset range ≡ 512 * range.first_sector = omega arith in
      record {
        on_target = on_target_replace T total before after (pending range) task on targets;
        inside = λ i lt. elim (inv.inside i lt) [
          | inl done ↦ inl done
          | inr c ↦
              let found =
                covered_replace {Q = ⊥} before after (pending range) task i
                  (λ c. inl (omega (arith, off, size, c.0, c.1)))
                  (subst (λ ts. CoveredBy ts i) focus c) in
              elim found [ inl c' ↦ inr c' | inr q ↦ absurd q ]
        ];
        outside = inv.outside;
        same_handle = inv.same_handle;
        counter = inv.counter;
        count =
            ap (add_progress s.transfer.progress) (
              uncounted_at before after task
              ∙ sym (uncounted_at before after (pending range))
              ∙ ap uncounted (sym focus))
            ∙ inv.count;
      }

  Step-Inv_write :
      {s : Pool} (before after : List Task) (range : SectorRange) (off : ℕ) (buf : List ℕ) (n : ℕ)
      → s.tasks ≡ before ++ (writing range off buf ∷ after)
      → n ≤ length buf
      → Inv T total start work s
      → Inv T total start work (record {
        transfer = wrote s.transfer off buf n;
        tasks = before ++ (writing range ((off + n) % 2 ^ 64) (drop n buf) ∷ after);
      })
  Step-Inv_write {s} before after range off buf n focus le inv =
      let old = writing range off buf in
      let task = writing range ((off + n) % 2 ^ 64) (drop n buf) in
      let targets = subst (AllOnTarget T total) focus inv.on_target in
      let on = IsOnTarget-at T total before after old targets in
      let file = s.transfer.output.file in
      record {
        on_target =
            on_target_replace T total before after old task
              (rest-IsOnTarget T total exact small range off n buf on le) targets;
        inside = λ i lt.
            write_inside T total exact small before after range off buf n i file on le lt
              (elim (inv.inside i lt) [
                | inl done ↦ inl done
                | inr c ↦ inr (subst (λ ts. CoveredBy ts i) focus c)
              ]);
        outside = λ i ge. ground (
          arith,
          get_elem?-splice file off (take n buf) i,
          length-take n buf,
          on.0,
          inv.outside i ge,
        );
        same_handle = inv.same_handle;
        counter = inv.counter;
        count =
            ap (add_progress s.transfer.progress) (
              uncounted_at before after task
              ∙ sym (uncounted_at before after old)
              ∙ ap uncounted (sym focus))
            ∙ inv.count;
      }

  Step-Inv_finish :
      {s : Pool} (before after : List Task) (range : SectorRange) (off : ℕ)
      → s.tasks ≡ before ++ (writing range off [] ∷ after)
      → Inv T total start work s
      → Inv T total start work
          (record { transfer = counted s.transfer range; tasks = before ++ after })
  Step-Inv_finish {s} before after range off focus inv =
      let old = writing range off [] in
      let targets = subst (AllOnTarget T total) focus inv.on_target in
      record {
        on_target = on_target_remove T total before after old targets;
        inside = λ i lt. elim (inv.inside i lt) [
          | inl done ↦ inl done
          | inr c ↦ inr (
              covered_remove before after old i (λ c. omega (arith, c.0, c.1))
                (subst (λ ts. CoveredBy ts i) focus c))
        ];
        outside = inv.outside;
        same_handle = inv.same_handle;
        counter = add_progress-IsCounter s.transfer.progress (byte_len range) inv.counter;
        count =
            add_progress_twice s.transfer.progress (byte_len range) (uncounted (before ++ after))
            ∙ ap (add_progress s.transfer.progress)
                (sym (uncounted_at before after old) ∙ ap uncounted (sym focus))
            ∙ inv.count;
      }

  pub Step-Inv :
      {s u : Pool}
      → Step os p engine data_len encrypt input s u
      → Inv T total start work s
      → Inv T total start work u
  Step-Inv (begin {s} before after range buf focus e) inv =
      Step-Inv_begin before after range buf focus e inv
  Step-Inv (write {s} before after range off buf n focus more e pos) inv =
      Step-Inv_write before after range off buf n focus
        (write_at-le os posix s.transfer.output off buf e) inv
  Step-Inv (finish {s} before after range off focus) inv =
      Step-Inv_finish before after range off focus inv

  pub Reach-Inv :
      {s u : Pool}
      → Inv T total start work s
      → Reach os p engine data_len encrypt input s u
      → Inv T total start work u
  Reach-Inv inv here = inv
  Reach-Inv inv (next r st) = Step-Inv st (Reach-Inv inv r)
