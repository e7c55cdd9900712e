-- ===== src/Cli/Align.antt =====
-- crates/nocap-crypt-cli/src/cmd/align.rs: `align check` and `align fix`.
use native.Mathlib.Nat.{zero-mod}
use nocap_crypt.Base.{
  ℕ, ◌+◌, ◌-◌, ◌^◌, ◌≤◌, ◌<◌, ◌≡◌, refl, sym, ap, ◌∙◌, ◌⊎◌, inl, inr, Bool, true, false, Option,
  none, some, ◌++◌, length, replicate, take_all, append-nil, length-append, length-replicate, ◌==◌,
  if◌then◌else◌, Bool-cases, arith,
}
use nocap_crypt.Blockio.Alignment.{is_aligned, align_up, passes, check_alignment, align_up_least}
use nocap_crypt.Blockio.SectorIo.{SectorFile, set_len}
use nocap_crypt.Cli.ExitCode.{ExitCode, success, alignment_failed, io}

-- What the system answers to `open` and `set_len`.
pub record Answers : Type 0 where
  pub open_fails : Bool
  pub set_len_fails : Bool

-- `run_check`
unfoldable pub run_check : Option SectorFile → ℕ → ℕ → ExitCode
run_check none alignment offset = io
run_check (some sf) alignment offset =
    if passes (check_alignment (length sf.file) offset alignment) then success else alignment_failed

-- The end of `run_fix`, with the length to set.
unfoldable pub extend : Answers → SectorFile → ℕ → ExitCode × SectorFile
extend a sf target =
    if target == length sf.file
    then (success, sf)
    else if a.open_fails
    then (io, sf)
    else if a.set_len_fails
    then (io, sf)
    else (success, set_len sf target)

-- `run_fix` on what is at the path: the exit code, and the file afterwards. An outer `none` is the
-- panic of `align_up`.
unfoldable pub run_fix : Option SectorFile → Answers → ℕ → Option (ExitCode × Option SectorFile)
run_fix none a alignment = some (io, none)
run_fix (some sf) a alignment = elim (align_up (length sf.file) alignment) [
  | none ↦ none
  | some target ↦ some ((extend a sf target).0, some (extend a sf target).1)
]

-- What `extend` to the next aligned length leaves.
abbrev pub Fixed : ℕ → SectorFile → ExitCode × SectorFile → Type 0
Fixed alignment sf r =
    ((r.0 ≡ io) × (r.1 ≡ sf))
    ⊎ ((r.0 ≡ success)
        × (run_check (some r.1) alignment 0 ≡ success)
        × (r.1.file ≡ sf.file ++ replicate (length r.1.file - length sf.file) 0))

run_check-success :
    (sf : SectorFile) (alignment : ℕ)
    → is_aligned (length sf.file) alignment ≡ true
    → run_check (some sf) alignment 0 ≡ success
unfolding run_check passes check_alignment
run_check-success sf alignment aligned = rw (aligned, origin alignment) refl
  where
    origin : (m : ℕ) → is_aligned 0 m ≡ true
    origin m = unfold is_aligned in ground (arith, zero-mod m)

already_Fixed :
    (sf : SectorFile) (alignment : ℕ)
    → is_aligned (length sf.file) alignment ≡ true
    → Fixed alignment sf (success, sf)
already_Fixed sf alignment aligned =
    let none_left : length sf.file - length sf.file ≡ 0 = omega arith in
    inr (
      refl,
      run_check-success sf alignment aligned,
      sym (append-nil sf.file) ∙ ap (λ n. sf.file ++ replicate n 0) (sym none_left),
    )

extended_Fixed :
    (sf : SectorFile) (alignment up : ℕ)
    → is_aligned up alignment ≡ true
    → length sf.file ≤ up
    → Fixed alignment sf (success, set_len sf up)
extended_Fixed sf alignment up aligned le =
    let file : (set_len sf up).file ≡ sf.file ++ replicate (up - length sf.file) 0 =
      unfold set_len in ap (λ t. t ++ replicate (up - length sf.file) 0) (take_all up sf.file le) in
    let size : length (set_len sf up).file ≡ up = omega (
      arith,
      ap length file,
      length-append sf.file (replicate (up - length sf.file) 0),
      length-replicate {A = ℕ} (up - length sf.file) 0,
    ) in
    inr (
      refl,
      run_check-success (set_len sf up) alignment (ap (λ n. is_aligned n alignment) size ∙ aligned),
      file ∙ ap (λ n. sf.file ++ replicate (n - length sf.file) 0) (sym size),
    )

extend-Fixed :
    (a : Answers) (sf : SectorFile) (alignment up : ℕ)
    → is_aligned up alignment ≡ true
    → length sf.file ≤ up
    → Fixed alignment sf (extend a sf up)
unfolding extend
extend-Fixed a sf alignment up aligned le = elim (Bool-cases (up == length sf.file)) [
  | inl same ↦
      rw same
        (already_Fixed sf alignment (ap (λ n. is_aligned n alignment) (sym (equal same)) ∙ aligned))
  | inr grows ↦ rw grows (after a.open_fails a.set_len_fails)
]
  where
    equal : up == length sf.file ≡ true → up ≡ length sf.file
    equal h = ground arith

    after :
        (o s : Bool)
        → Fixed alignment sf
            (if o then (io, sf) else if s then (io, sf) else (success, set_len sf up))
    after true s = inl (refl, refl)
    after false true = inl (refl, refl)
    after false false = extended_Fixed sf alignment up aligned le

-- `align fix` with a nonzero alignment on an existing file, whose length and alignment add up to
-- at most 2 ^ 64, either fails with the I/O exit code and leaves the file alone, or succeeds, and
-- then `align check` passes on the file, which holds what it held before and then zeros.
pub run_fix-Fixed :
    (a : Answers) (sf : SectorFile) (alignment : ℕ)
    → 0 < alignment
    → length sf.file + alignment ≤ 2 ^ 64
    → (r : ExitCode × SectorFile) × (run_fix (some sf) a alignment ≡ some (r.0, some r.1))
      × Fixed alignment sf r
unfolding run_fix
run_fix-Fixed a sf alignment pos small =
    let (up, e, aligned, le, _) = align_up_least (length sf.file) alignment pos small in
    (extend a sf up, rw (run_fix, e) refl, extend-Fixed a sf alignment up aligned le)
