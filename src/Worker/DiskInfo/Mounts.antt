-- ===== src/Worker/DiskInfo/Mounts.antt =====
-- The loop over the mounts finds the longest mount point.
use nocap_crypt.Base.{
  ℕ, ◌≤◌, ◌≡◌, refl, sym, ap, ◌∙◌, subst, ◌⊎◌, inl, inr, Bool, true, false, Option, none, some,
  some_injective, List, [], ◌∷◌, Bool-cases, Option-cases, arith,
}
use nocap_crypt.Base.Utf8.{utf8_len}
use nocap_crypt.Base.Words.{split_whitespace, starts_with}
use nocap_crypt.Worker.DiskInfo.{mount_of, is_better, update_best, best_mount}

module _ (canonical : List ℕ) where
  -- The line mounts the device at a mount point of this length that the path starts with.
  pub record Covers (line : List ℕ) (n : ℕ) (device : List ℕ) : Type 0 where
    pub mount_point : List ℕ
    pub words : mount_of (split_whitespace line) ≡ some (device, mount_point)
    pub prefix : starts_with canonical mount_point ≡ true
    pub len : utf8_len mount_point ≡ n

  -- One of the lines does.
  pub data Among (n : ℕ) (device : List ℕ) : List (List ℕ) → Type 0 where
    here :
        (line : List ℕ) (rest : List (List ℕ)) → Covers line n device → Among n device (line ∷ rest)
    there :
        (line : List ℕ) (rest : List (List ℕ)) → Among n device rest → Among n device (line ∷ rest)

  -- No line has a longer mount point that the path starts with.
  pub data NoLonger (n : ℕ) : List (List ℕ) → Type 0 where
    nil : NoLonger n []
    cons :
        (line : List ℕ) (rest : List (List ℕ))
        → ((m : ℕ) (device : List ℕ) → Covers line m device → m ≤ n)
        → NoLonger n rest
        → NoLonger n (line ∷ rest)

  -- What the loop ends with, from what it has so far.
  record Longest (table : List (List ℕ)) (best : Option (ℕ × List ℕ)) (n : ℕ) (device : List ℕ)
      : Type 0 where
    source : (best ≡ some (n, device)) ⊎ Among n device table
    no_longer : NoLonger n table
    bound : (b : ℕ × List ℕ) → best ≡ some b → b.0 ≤ n

  not_some : {A : Type 0} {a : A} → ◌≡◌ {A = Option A} none (some a) → ⊥
  not_some h = cc

  -- The mount point of a line is that of its first two words.
  covered :
      {line : List ℕ} {mount : List ℕ × List ℕ} {m : ℕ} {device : List ℕ}
      → mount_of (split_whitespace line) ≡ some mount
      → Covers line m device
      → (starts_with canonical mount.1 ≡ true) × (utf8_len mount.1 ≡ m)
  covered {m = m} e c =
      let same = some_injective (sym e ∙ c.words) in
      (
        subst (λ q. starts_with canonical q.1 ≡ true) (sym same) c.prefix,
        subst (λ q. utf8_len q.1 ≡ m) (sym same) c.len,
      )

  worse :
      (len n : ℕ) (best : Option (ℕ × List ℕ))
      → is_better len best ≡ false
      → ((b : ℕ × List ℕ) → best ≡ some b → b.0 ≤ n)
      → len ≤ n
  worse len n none differs h = cc
  worse len n (some b) differs h = let le = h b refl in ground arith

  better :
      (len n : ℕ) (best : Option (ℕ × List ℕ))
      → is_better len best ≡ true
      → len ≤ n
      → (b : ℕ × List ℕ) → best ≡ some b
      → b.0 ≤ n
  better len n none longer le b e = absurd (not_some e)
  better len n (some b') longer le b e = subst (λ q. q.0 ≤ n) (some_injective e) (ground arith)

  module _ (line : List ℕ) (rest : List (List ℕ)) {best : Option (ℕ × List ℕ)} {n : ℕ}
      {device : List ℕ} {mount : List ℕ × List ℕ}
      (e : mount_of (split_whitespace line) ≡ some mount) where
    kept :
        (starts_with canonical mount.1 ≡ true → is_better (utf8_len mount.1) best ≡ false)
        → Longest rest best n device
        → Longest (line ∷ rest) best n device
    kept shorter l = record {
      source = elim l.source [ inl same ↦ inl same | inr among ↦ inr (there line rest among) ];
      no_longer =
          cons line rest
            (λ m d c.
              let (prefix, len) = covered e c in
              subst (λ k. k ≤ n) len (worse (utf8_len mount.1) n best (shorter prefix) l.bound))
            l.no_longer;
      bound = l.bound;
    }

    taken :
        starts_with canonical mount.1 ≡ true
        → is_better (utf8_len mount.1) best ≡ true
        → Longest rest (some (utf8_len mount.1, mount.0)) n device
        → Longest (line ∷ rest) best n device
    taken prefix longer l =
        let le : utf8_len mount.1 ≤ n = l.bound _ refl in
        record {
          source = elim l.source [
            | inl same ↦
                let both = some_injective same in
                inr (
                  here line rest (record {
                    mount_point = mount.1;
                    words = e ∙ ap (λ d. some (d, mount.1)) (ap (λ q. q.1) both);
                    prefix = prefix;
                    len = ap (λ q. q.0) both;
                  }))
            | inr among ↦ inr (there line rest among)
          ];
          no_longer =
              cons line rest (λ m d c. let (p, len) = covered e c in subst (λ k. k ≤ n) len le)
                l.no_longer;
          bound = better (utf8_len mount.1) n best longer le;
        }

  best_mount-Longest :
      (table : List (List ℕ)) (best : Option (ℕ × List ℕ)) {n : ℕ} {device : List ℕ}
      → best_mount canonical table best ≡ some (some (n, device))
      → Longest table best n device
  unfolding best_mount update_best
  best_mount-Longest [] best {n} h =
      let same = some_injective h in
      record {
        source = inl same;
        no_longer = nil;
        bound = λ b e. subst (λ q. q.0 ≤ n) (some_injective (sym same ∙ e)) (omega arith);
      }
  best_mount-Longest (line ∷ rest) best h = elim (Option-cases (mount_of (split_whitespace line))) [
    | inl short ↦ absurd (not_some (rw (short) at h))
    | inr (mount, e) ↦ elim (Bool-cases (starts_with canonical mount.1)) [
      | inl prefix ↦ elim (Bool-cases (is_better (utf8_len mount.1) best)) [
        | inl yes_better ↦
            taken line rest e prefix yes_better
              (best_mount-Longest rest _ (rw (e, prefix, yes_better) at h))
        | inr no_better ↦
            kept line rest e (λ p. no_better)
              (best_mount-Longest rest best (rw (e, prefix, no_better) at h))
      ]
      | inr other ↦
          kept line rest e (λ p. absurd (clash p other))
            (best_mount-Longest rest best (rw (e, other) at h))
    ]
  ]
    where
      clash : {b : Bool} → b ≡ true → b ≡ false → ⊥
      clash p q = cc

  -- The device that the loop over /proc/mounts ends with is that of a line whose mount point the path
  -- starts with, and no other line has a longer such mount point.
  pub best_mount_longest :
      (table : List (List ℕ)) {n : ℕ} {device : List ℕ}
      → best_mount canonical table none ≡ some (some (n, device))
      → Among n device table × NoLonger n table
  best_mount_longest table h =
      let l = best_mount-Longest table none h in
      (elim l.source [ inl none_yet ↦ absurd (not_some none_yet) | inr among ↦ among ], l.no_longer)
