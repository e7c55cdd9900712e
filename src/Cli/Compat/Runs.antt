-- ===== src/Cli/Compat/Runs.antt =====
-- What a run of the `cryptsetup` check leaves on the machine.
use mathlib.Core.Logic.Iff
use nocap_crypt.Base.{
  ℕ, ◌≡◌, refl, sym, ◌∙◌, ◌≢◌, ◌↔◌, ◌⊎◌, inl, inr, true, false, Option, none, some, String, str_eq,
  str_eq_iff, List, [], ◌∷◌, ap, Bool-cases,
}
use nocap_crypt.Base.Result.{Result, ok, err, Result-cases, not_ok, Fault}
use nocap_crypt.Core.CipherSpec.{CipherSpec}
use nocap_crypt.Core.Primitives.{Primitives}
use nocap_crypt.Core.Engine.{SectorEngine, new}
use nocap_crypt.Cli.Compat.Machine.{Host}
use nocap_crypt.Cli.Compat.{
  Guard, drop_guard, close_mapping, detach_loop, new_guard, temp_name, ours, finish, run_inner, run,
  fixture_skip_sectors,
}
use nocap_crypt.Cli.Compat.Manual.{View, IsDocumented, TornDown}
use nocap_crypt.Cli.Compat.Steps.{body}
use nocap_crypt.Cli.Compat.Reports.{fixture-encrypts}
use nocap_crypt.Cli.Compat.Teardown.{Inv, Empty, Any, Ends, guarded-Ends, tracked}

-- No resource was held.
kept_none {ℓ} :
    {A C : Type ℓ} (y : String)
    → A ↔ (C ⊎ (◌≡◌ {A = Option String} none (some y)))
    → A ↔ (C ⊎ ((◌≡◌ {A = Option String} none (some y)) × A))
kept_none y q = (
  λ a. elim (q.0 a) [ inl c ↦ inl c | inr e ↦ inr (e, a) ],
  λ c. elim c [ inl x ↦ q.1 (inl x) | inr p ↦ p.1 ],
)

-- A resource was held and is asked away: what is left of it, `A`, is what it was before, `C`, or it.
kept_some {ℓ} :
    {A B C : Type ℓ} (x y : String)
    → (x ≢ y → A ↔ B)
    → B ↔ (C ⊎ (◌≡◌ {A = Option String} (some x) (some y)))
    → (◌≡◌ {A = Option String} (some x) (some y) → ¬ C)
    → A ↔ (C ⊎ ((◌≡◌ {A = Option String} (some x) (some y)) × A))
kept_some {A} {B} {C} x y others q fresh = elim (Bool-cases (str_eq x y)) [
  | inl same ↦
      let e : x ≡ y = (str_eq_iff x y).0 same in
      (λ a. inr (ap some e, a), λ c. elim c [ inl z ↦ absurd (fresh (ap some e) z) | inr r ↦ r.1 ])
  | inr differ ↦
      let apart : x ≢ y = (λ e. cc (differ, (str_eq_iff x y).1 e)) in
      (
        λ a. elim (q.0 ((others apart).0 a)) [ inl c ↦ inl c | inr e ↦ absurd (apart (cc)) ],
        λ c. elim c [ inl z ↦ (others apart).1 (q.1 (inl z)) | inr r ↦ r.1 ],
      )
]

module _ (h : Host) (v : View h) (doc : IsDocumented h v) where
  open h use {S}
  open v use {Exists, Attached, Mapped}

  close-mapped :
      (s₀ : S) (held : Option String) (s : S) (m : String)
      → Mapped s m ↔ (Mapped s₀ m ⊎ (held ≡ some m))
      → (held ≡ some m → ¬ Mapped s₀ m)
      → Mapped (close_mapping h held s) m
        ↔ (Mapped s₀ m ⊎ ((held ≡ some m) × Mapped (close_mapping h held s) m))
  unfolding close_mapping
  close-mapped s₀ none s m q fresh = kept_none m q
  close-mapped s₀ (some name) s m q fresh = kept_some name m (doc.close-others name s m) q fresh

  close-attached :
      (held : Option String) (s : S) (d : String)
      → Attached (close_mapping h held s) d ↔ Attached s d
  unfolding close_mapping
  close-attached none s d = Iff.rfl
  close-attached (some name) s d = doc.close-attached name s d

  close-files :
      (held : Option String) (s : S) (f : String) → Exists (close_mapping h held s) f ↔ Exists s f
  unfolding close_mapping
  close-files none s f = Iff.rfl
  close-files (some name) s f = doc.close-files name s f

  detach-attached :
      (s₀ : S) (held : Option String) (s : S) (d : String)
      → Attached s d ↔ (Attached s₀ d ⊎ (held ≡ some d))
      → (held ≡ some d → ¬ Attached s₀ d)
      → Attached (detach_loop h held s) d
        ↔ (Attached s₀ d ⊎ ((held ≡ some d) × Attached (detach_loop h held s) d))
  unfolding detach_loop
  detach-attached s₀ none s d q fresh = kept_none d q
  detach-attached s₀ (some dev) s d q fresh = kept_some dev d (doc.detach-others dev s d) q fresh

  detach-mapped :
      (held : Option String) (s : S) (m : String) → Mapped (detach_loop h held s) m ↔ Mapped s m
  unfolding detach_loop
  detach-mapped none s m = Iff.rfl
  detach-mapped (some dev) s m = doc.detach-mapped dev s m

  detach-files :
      (held : Option String) (s : S) (f : String) → Exists (detach_loop h held s) f ↔ Exists s f
  unfolding detach_loop
  detach-files none s f = Iff.rfl
  detach-files (some dev) s f = doc.detach-files dev s f

  close_call :
      (held : Option String) (s : S) (m : String)
      → held ≡ some m
      → close_mapping h held s ≡ (h.cryptsetup ("close" ∷ m ∷ []) s).1
  unfolding close_mapping
  close_call held s m e = rw e refl

  detach_call :
      (held : Option String) (s : S) (d : String)
      → held ≡ some d
      → detach_loop h held s ≡ h.losetup_detach d s
  unfolding detach_loop
  detach_call held s d e = rw e refl

  -- An `unlink` leaves all files but its own.
  left_over :
      (path : String) (s : S) (f : String)
      → Exists (h.remove_file path s) f
      → Exists s f ⊎ (f ≡ path)
  left_over path s f e = elim (Bool-cases (str_eq path f)) [
    | inl same ↦ inr (sym ((str_eq_iff path f).0 same))
    | inr differ ↦
        inl ((doc.remove-others path s f (λ x. cc (differ, (str_eq_iff path f).1 x))).0 e)
  ]

  module _ (backing key : String) (s₀ : S) where
    drop-TornDown :
        (g : Guard) (s : S)
        → Inv h v doc backing key s₀ g s
        → TornDown h v backing key g s₀ s (drop_guard h g s)
    unfolding drop_guard
    drop-TornDown g s t = record {
      closed = closed;
      detached = detached;
      removed = removed;
      close_called = close_call g.map_name s;
      detach_called = detach_call g.loop_dev closed;
      backing_unlinked = rw (sym t.backing_path) refl;
      key_unlinked = rw (drop_guard, sym t.key_path) refl;
      new_loop = t.new_loop;
      new_map = t.new_map;
      attached = λ d. Iff.trans (doc.remove-attached g.key_path removed d) (
          Iff.trans (doc.remove-attached g.backing_path detached d) (
            detach-attached s₀ g.loop_dev closed d
              (Iff.trans (close-attached g.map_name s d) (t.attached d)) (t.new_loop d)));
      mapped = λ m. Iff.trans (doc.remove-mapped g.key_path removed m) (
          Iff.trans (doc.remove-mapped g.backing_path detached m) (
            Iff.trans (detach-mapped g.loop_dev closed m)
              (close-mapped s₀ g.map_name s m (t.mapped m) (t.new_map m))));
      new_file = λ f e. elim (left_over g.key_path removed f e) [
        | inr k ↦ inr (inr (k ∙ t.key_path))
        | inl there ↦ elim (Bool-cases (str_eq f key)) [
          | inl is_key ↦ inr (inr ((str_eq_iff f key).0 is_key))
          | inr no_key ↦ elim (Bool-cases (str_eq f backing)) [
            | inl is_backing ↦ inr (inl ((str_eq_iff f backing).0 is_backing, there))
            | inr no_backing ↦ elim (left_over g.backing_path detached f there) [
              | inr b ↦ inr (inl (b ∙ t.backing_path, there))
              | inl before ↦ inl (
                  (t.files f (λ x. cc (no_backing, (str_eq_iff f backing).1 x))
                      (λ x. cc (no_key, (str_eq_iff f key).1 x))).0
                    ((untouched f).0 before))
            ]
          ]
        ]
      ];
      kept_file = λ f b k e.
          (doc.remove-others g.key_path removed f (λ p. k (sym p ∙ t.key_path))).1 (
            (doc.remove-others g.backing_path detached f (λ p. b (sym p ∙ t.backing_path))).1
              ((untouched f).1 ((t.files f b k).1 e)));
    }
      where
        closed : S
        closed = close_mapping h g.map_name s

        detached : S
        detached = detach_loop h g.loop_dev closed

        removed : S
        removed = h.remove_file g.backing_path detached

        untouched : (f : String) → Exists detached f ↔ Exists s f
        untouched f = Iff.trans (detach-files g.loop_dev closed f) (close-files g.map_name s f)

  -- A guard that holds nothing tracks the machine as it is.
  new-Tracks :
      (s : S) → Inv h v doc (new_guard h).backing_path (new_guard h).key_path s (new_guard h) s
  unfolding new_guard
  new-Tracks s = record {
    attached = λ d. (inl, λ a. elim a [ inl x ↦ x | inr e ↦ absurd (cc) ]);
    mapped = λ m. (inl, λ a. elim a [ inl x ↦ x | inr e ↦ absurd (cc) ]);
    new_loop = λ d e. absurd (cc);
    new_map = λ m e. absurd (cc);
    files = λ f b k. Iff.rfl;
    backing_path = refl;
    key_path = refl;
  }

  nothing_held : Empty (new_guard h)
  unfolding new_guard
  nothing_held = (refl, refl)

  not_built :
      (p : Primitives) (spec : CipherSpec) (key : List ℕ) {e : Fault String}
      → ours h p spec key ≡ err e
      → (engine : SectorEngine) → new p spec key ≢ ok engine
  unfolding ours
  not_built p spec key r engine n =
      let (buf, enc) = fixture-encrypts p engine fixture_skip_sectors in
      let made : ours h p spec key ≡ ok buf = rw (ours, n, enc) refl in not_ok (sym r ∙ made)

  -- What a run leaves: the machine as it was, or the guard that its steps end with, torn down.
  pub data Restored (p : Primitives) (spec : CipherSpec) (key : List ℕ) (s₀ s : S) : Type 0 where
    untouched :
        (h.has_cryptsetup s₀ ≡ false) ⊎ ((engine : SectorEngine) → new p spec key ≢ ok engine)
        → s ≡ s₀
        → Restored p spec key s₀ s
    torn_down :
        h.has_cryptsetup s₀ ≡ true
        → TornDown h v
            (new_guard h).backing_path
            (new_guard h).key_path
            (body h spec key s₀).1
            s₀
            (body h spec key s₀).2
            s
        → Restored p spec key s₀ s

  -- On a machine on which nobody else acts, where a command that fails sets nothing up, and no call
  -- touches more than it is asked to: without `cryptsetup` or an engine for the key, a run of the check
  -- leaves the machine as it was. Otherwise, whichever of its steps fails, if any, `cryptsetup close`,
  -- `losetup -d` and `unlink` are called, in this order, on all that the run has set up. Afterwards the
  -- same loop devices are attached and the same mappings are open as before, but for the one of each
  -- that the run has set up, where its call did not take effect; a file is new only if it is one of the
  -- two temporary ones and was still there after its `unlink`; and no other file is gone.
  pub run-Restored :
      (p : Primitives) (spec : CipherSpec) (key_bytes : List ℕ) (s : S)
      → Restored p spec key_bytes s (run h p spec key_bytes s).1
  unfolding run run_inner
  run-Restored p spec key_bytes s = elim (Bool-cases (h.has_cryptsetup s)) [
    | inr missing ↦ rw (run, missing) (untouched (inl missing) refl)
    | inl found ↦ elim (Result-cases (ours h p spec key_bytes)) [
      | inr (e, r) ↦
          rw (run, found, run_inner, r) (untouched (inr (not_built p spec key_bytes r)) refl)
      | inl (expected, r) ↦
          rw (run, found, run_inner, r)
            (torn_down found (finish-TornDown expected _ (tracked h v doc _ _ s ends)))
    ]
  ]
    where
      ends :
          Ends h v doc
            (new_guard h).backing_path
            (new_guard h).key_path
            s
            Any
            (body h spec key_bytes s)
      ends =
          guarded-Ends h v doc (new_guard h).backing_path (new_guard h).key_path s spec key_bytes
            (temp_name h) (new_guard h) s (new-Tracks s) (nothing_held)

      finish-TornDown :
          (expected : List ℕ) (r : Result String (List ℕ) × Guard × S)
          → Inv h v doc (new_guard h).backing_path (new_guard h).key_path s r.1 r.2
          → TornDown h v
              (new_guard h).backing_path
              (new_guard h).key_path
              r.1
              s
              r.2
              (finish h p expected r).1
      finish-TornDown expected (ok real, g, s') t = unfold finish in drop-TornDown _ _ s g s' t
      finish-TornDown expected (err e, g, s') t = unfold finish in drop-TornDown _ _ s g s' t
