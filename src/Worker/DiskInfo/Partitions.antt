-- ===== src/Worker/DiskInfo/Partitions.antt =====
-- The names of partitions lead to the names of their disks.
use nocap_crypt.Base.{
  ℕ, ◌≡◌, ◌≢◌, refl, subst, ap, inl, inr, true, false, Option, none, some, List, [], ◌∷◌, ◌++◌,
  ◌==◌, Bool-cases, Option-cases, arith,
}
use nocap_crypt.Base.Words.{
  is_ascii_digit, is_nil, all_digits, ends_with_digit, trim_end_digits, split_last,
}
use nocap_crypt.Worker.DiskInfo.{keeps_digits, without_digits, base_device_name}

-- A name without a digit.
pub data NoDigit : List ℕ → Type 0 where
  empty : NoDigit []
  other : (c : ℕ) (cs : List ℕ) → is_ascii_digit c ≡ false → NoDigit cs → NoDigit (c ∷ cs)

split_last-digits : (ds : List ℕ) → all_digits ds ≡ true → split_last b'p' ds ≡ none
unfolding split_last all_digits
split_last-digits [] h = refl
split_last-digits (d ∷ ds) h =
    let rest : all_digits ds ≡ true = ground arith in
    let differs : (d == b'p') ≡ false = ground arith in rw (split_last-digits ds rest, differs) refl

split_last-append :
    (p : ℕ) (xs ds : List ℕ)
    → split_last p ds ≡ none
    → split_last p (xs ++ (p ∷ ds)) ≡ some (xs, ds)
unfolding split_last
split_last-append p [] ds h = let same : (p == p) ≡ true = ground arith in rw (h, same) refl
split_last-append p (x ∷ xs) ds h = rw (split_last-append p xs ds h) refl

-- What is before the last occurrence has no digit, if what it is taken from has none but at the end.
head_NoDigit :
    (p : ℕ) (xs ds : List ℕ) {head tail : List ℕ}
    → NoDigit xs
    → split_last p ds ≡ none
    → split_last p (xs ++ ds) ≡ some (head, tail)
    → NoDigit head
unfolding split_last
head_NoDigit p [] ds none_yet no_p e = cc
head_NoDigit p (x ∷ xs) ds {head} {tail} (other _ _ nx nxs) no_p e =
    elim (Option-cases (split_last p (xs ++ ds))) [
      | inl none_behind ↦ elim (Bool-cases (x == p)) [
        | inl here ↦
            let e' = rw (none_behind, here) at e in
            subst NoDigit (ap (λ o. elim o [ some parts ↦ parts.0 | none ↦ [] ]) e') empty
        | inr not_here ↦
            let e' : ◌≡◌ {A = Option (List ℕ × List ℕ)} none (some (head, tail)) =
              rw (none_behind, not_here) at e in
            absurd (not_none e')
      ]
      | inr (parts, behind) ↦
          let e' = rw behind at e in
          subst NoDigit (ap (λ o. elim o [ some q ↦ q.0 | none ↦ [] ]) e')
            (other x parts.0 nx (head_NoDigit p xs ds nxs no_p behind))
    ]
  where
    not_none : {A : Type 0} {a : A} → ◌≡◌ {A = Option A} none (some a) → ⊥
    not_none h = cc

NoDigit-ends : (xs : List ℕ) → NoDigit xs → ends_with_digit xs ≡ false
unfolding ends_with_digit
NoDigit-ends [] empty = refl
NoDigit-ends (x ∷ []) (other _ _ nx rest) = nx
NoDigit-ends (x ∷ (y ∷ ys)) (other _ _ nx rest) = NoDigit-ends (y ∷ ys) rest

trim_end_digits-digits : (ds : List ℕ) → all_digits ds ≡ true → trim_end_digits ds ≡ []
unfolding trim_end_digits all_digits
trim_end_digits-digits [] h = refl
trim_end_digits-digits (d ∷ ds) h =
    let first : is_ascii_digit d ≡ true = ground arith in
    let rest : all_digits ds ≡ true = ground arith in
    rw (trim_end_digits-digits ds rest, first) refl

trim_end_digits-append :
    (xs ds : List ℕ) → NoDigit xs → all_digits ds ≡ true → trim_end_digits (xs ++ ds) ≡ xs
unfolding trim_end_digits
trim_end_digits-append [] ds none_yet h = trim_end_digits-digits ds h
trim_end_digits-append (x ∷ xs) ds (other _ _ nx nxs) h =
    rw (nx, trim_end_digits-append xs ds nxs h) refl

-- How a partition is named: by digits behind its disk's name, with a "p" between them where that name
-- ends in a digit. A name without digits may not be one of those that are left alone.
pub data IsPartitionOf (disk : List ℕ) : List ℕ → Type 0 where
  separated :
      (ds : List ℕ)
      → all_digits ds ≡ true
      → ends_with_digit disk ≡ true
      → ds ≢ []
      → IsPartitionOf disk (disk ++ (b'p' ∷ ds))
  joined :
      (ds : List ℕ)
      → all_digits ds ≡ true
      → NoDigit disk
      → keeps_digits (disk ++ ds) ≡ false
      → IsPartitionOf disk (disk ++ ds)

-- From the name of a partition comes the name of its disk: whether the partition's number stands behind
-- a "p" and the disk's name ends in a digit, or the number stands right behind a name without digits, as
-- long as that does not start with "nvme", "mmcblk" or "loop".
pub base_device_name-IsPartitionOf :
    (disk : List ℕ) {name : List ℕ} → IsPartitionOf disk name → base_device_name name ≡ disk
unfolding base_device_name without_digits
base_device_name-IsPartitionOf disk (separated ds h ends some_digits) =
    rw
      (
        base_device_name,
        split_last-append b'p' disk ds (split_last-digits ds h),
        ends,
        filled ds some_digits,
        h,
      )
      refl
  where
    filled : (ds : List ℕ) → ds ≢ [] → is_nil ds ≡ false
    filled [] h = absurd (h refl)
    filled (d ∷ ds) h = refl
base_device_name-IsPartitionOf disk (joined ds h no_digit plain) =
    elim (Option-cases (split_last b'p' (disk ++ ds))) [
      | inl no_p ↦
          rw (base_device_name, no_p, without_digits, plain)
            (trim_end_digits-append disk ds no_digit h)
      | inr (parts, found) ↦
          let no_end =
            NoDigit-ends parts.0
              (head_NoDigit b'p' disk ds no_digit (split_last-digits ds h) found) in
          rw (base_device_name, found, no_end, without_digits, plain)
            (trim_end_digits-append disk ds no_digit h)
    ]
