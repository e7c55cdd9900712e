-- ===== src/Cli/Compat/Teardown.antt =====
-- What the `cryptsetup` check leaves on the machine: its guard tracks what it has set up.
use Prim.Native.String.{◌++◌ as ◌<>◌}
use mathlib.Core.Logic.Iff
use nocap_crypt.Base.{
  ℕ, ◌≡◌, refl, ◌∙◌, subst, ◌≢◌, ◌↔◌, ◌⊎◌, inl, inr, Option, none, some, String, List, take, length,
  ltb, Bool-cases, if◌then◌else◌,
}
use nocap_crypt.Base.Result.{Result, ok, err, Result-cases}
use nocap_crypt.Base.Text.{trim}
use nocap_crypt.Core.CipherSpec.{CipherSpec}
use nocap_crypt.Cli.Compat.Machine.{Host}
use nocap_crypt.Cli.Compat.{
  Guard, Step, ◌>>=◌, call, attach, open_mapping, open_args, key_file_str, guarded, fixture_len,
}
use nocap_crypt.Cli.Compat.Manual.{View, Quiet, Same, Attaches, Maps, IsDocumented, Tracks}

-- One more resource, which the guard takes.
iff_gain {ℓ} :
    {A B C : Type ℓ} (held : Option String) (x y : String)
    → held ≡ none
    → A ↔ (B ⊎ (x ≡ y))
    → B ↔ (C ⊎ (held ≡ some y))
    → A ↔ (C ⊎ (◌≡◌ {A = Option String} (some x) (some y)))
iff_gain {A} {B} {C} held x y empty p q = (λ a. to (p.0 a), λ c. p.1 (from c))
  where
    to : B ⊎ (x ≡ y) → C ⊎ (◌≡◌ {A = Option String} (some x) (some y))
    to (inr e) = inr (cc)
    to (inl b) = elim (q.0 b) [ inl c ↦ inl c | inr e ↦ absurd (cc) ]

    from : C ⊎ (◌≡◌ {A = Option String} (some x) (some y)) → B ⊎ (x ≡ y)
    from (inr e) = inr (cc)
    from (inl c) = inl (q.1 (inl c))

-- What a guard still lacks.
abbrev pub Empty : Guard → Type 0
Empty g = (g.loop_dev ≡ none) × (g.map_name ≡ none)

abbrev pub Unmapped : Guard → Type 0
Unmapped g = g.map_name ≡ none

abbrev pub Any : Guard → Type 0
Any g = Unit

module _ (h : Host) (v : View h) (doc : IsDocumented h v) (backing key : String) (s₀ : h.S) where
  open h use {S}
  open v use {Exists, Attached, Mapped}

  abbrev pub Inv : Guard → S → Type 0
  Inv g s = Tracks h v backing key s₀ g s

  Same-Tracks : (g : Guard) {s s' : S} → Inv g s → Same h v s s' → Inv g s'
  Same-Tracks g t same = record {
    attached = λ d. Iff.trans (same.attached d) (t.attached d);
    mapped = λ m. Iff.trans (same.mapped m) (t.mapped m);
    new_loop = t.new_loop;
    new_map = t.new_map;
    files = λ f p q. Iff.trans (same.files f) (t.files f p q);
    backing_path = t.backing_path;
    key_path = t.key_path;
  }

  Quiet-Tracks :
      (path : String) (g : Guard) {s s' : S}
      → (path ≡ backing) ⊎ (path ≡ key)
      → Inv g s
      → Quiet h v path s s'
      → Inv g s'
  Quiet-Tracks path g temp t quiet = record {
    attached = λ d. Iff.trans (quiet.attached d) (t.attached d);
    mapped = λ m. Iff.trans (quiet.mapped m) (t.mapped m);
    new_loop = t.new_loop;
    new_map = t.new_map;
    files = λ f p q. Iff.trans (quiet.files f (other f p q)) (t.files f p q);
    backing_path = t.backing_path;
    key_path = t.key_path;
  }
    where
      other : (f : String) → f ≢ backing → f ≢ key → f ≢ path
      other f p q e = elim temp [ inl b ↦ p (e ∙ b) | inr k ↦ q (e ∙ k) ]

  -- The device goes into a guard that had none.
  Attaches-Tracks :
      (g : Guard) {s s' : S} (dev : String)
      → Inv g s
      → g.loop_dev ≡ none
      → Attaches h v dev s s'
      → Inv (record g { loop_dev = some dev }) s'
  Attaches-Tracks g dev t empty more = record {
    attached = λ d. iff_gain g.loop_dev dev d empty (more.attached d) (t.attached d);
    mapped = λ m. Iff.trans (more.mapped m) (t.mapped m);
    new_loop =
        λ d e a. more.was_free ((t.attached dev).1 (inl (subst (λ x. Attached s₀ x) (cc) a)));
    new_map = t.new_map;
    files = λ f p q. Iff.trans (more.files f) (t.files f p q);
    backing_path = t.backing_path;
    key_path = t.key_path;
  }

  -- The mapping goes into a guard that had none.
  Maps-Tracks :
      (g : Guard) {s s' : S} (name : String)
      → Inv g s
      → g.map_name ≡ none
      → Maps h v name s s'
      → Inv (record g { map_name = some name }) s'
  Maps-Tracks g name t empty more = record {
    attached = λ d. Iff.trans (more.attached d) (t.attached d);
    mapped = λ m. iff_gain g.map_name name m empty (more.mapped m) (t.mapped m);
    new_loop = t.new_loop;
    new_map = λ m e a. more.was_free ((t.mapped name).1 (inl (subst (λ x. Mapped s₀ x) (cc) a)));
    files = λ f p q. Iff.trans (more.files f) (t.files f p q);
    backing_path = t.backing_path;
    key_path = t.key_path;
  }

  -- How a step ends: with a guard that still tracks the machine, also where it fails, and with `Q`
  -- of the guard where it does not.
  pub data Ends {A : Type 0} (Q : Guard → Type 0) (r : Result String A × Guard × S) : Type 0 where
    goes_on : (a : A) → r.0 ≡ ok a → Inv r.1 r.2 → Q r.1 → Ends Q r
    stops : (e : String) → r.0 ≡ err e → Inv r.1 r.2 → Ends Q r

  >>=-Ends :
      {A B : Type 0} {Q R : Guard → Type 0} (m : Step h A) (f : A → Step h B) (g : Guard) (s : S)
      → Ends Q (m g s)
      → ((a : A) (g' : Guard) (s' : S) → Inv g' s' → Q g' → Ends R (f a g' s'))
      → Ends R (◌>>=◌ h m f g s)
  unfolding ◌>>=◌
  >>=-Ends m f g s (stops e r t) k = rw (◌>>=◌, r) (stops e refl t)
  >>=-Ends m f g s (goes_on a r t q) k = rw (◌>>=◌, r) (k a (m g s).1 (m g s).2 t q)

  call-Ends :
      {A : Type 0} {Q : Guard → Type 0} (context : String) (op : S → Result String A × S)
      (g : Guard) (s : S)
      → Inv g (op s).1
      → Q g
      → Ends Q (call h context op g s)
  unfolding call
  call-Ends context op g s t q = elim (Result-cases (op s).0) [
    | inl (a, r) ↦ goes_on a (rw r refl) t q
    | inr (e, r) ↦ stops (context <> e) (rw r refl) t
  ]

  attach-Ends :
      (g : Guard) (s : S)
      → g.backing_path ≡ backing
      → Inv g s
      → Empty g
      → Ends Unmapped (attach h g s)
  unfolding attach
  attach-Ends g s path t (no_loop, no_map) =
      elim (Result-cases (h.losetup_find g.backing_path s).0) [
        | inr (e, r) ↦
            rw (attach, r) (stops _ refl (Same-Tracks g t (doc.losetup-error g.backing_path s r)))
        | inl (out, r) ↦ elim (Bool-cases out.success) [
          | inl good ↦
              rw (attach, r, good)
                (goes_on _ refl
                  (Attaches-Tracks g (trim out.stdout) t no_loop
                    (doc.losetup-Attaches g.backing_path s r good))
                  no_map)
          | inr bad ↦
              rw (attach, r, bad)
                (stops _ refl (Same-Tracks g t (doc.losetup-refuses g.backing_path s r bad)))
        ]
      ]

  open_mapping-Ends :
      (spec : CipherSpec) (key_file dev name : String) (g : Guard) (s : S)
      → Inv g s
      → Unmapped g
      → Ends Any (open_mapping h (open_args spec key_file dev name) name g s)
  unfolding open_mapping
  open_mapping-Ends spec key_file dev name g s t no_map =
      elim (Result-cases (h.cryptsetup (open_args spec key_file dev name) s).0) [
        | inr (e, r) ↦
            rw (open_mapping, r)
              (stops _ refl (Same-Tracks g t (doc.open-error spec key_file dev name s r)))
        | inl (st, r) ↦ elim (Bool-cases st.success) [
          | inl good ↦
              rw (open_mapping, r, good)
                (goes_on _ refl
                  (Maps-Tracks g name t no_map (doc.open-Maps spec key_file dev name s r good)) tt)
          | inr bad ↦
              rw (open_mapping, r, bad)
                (stops _ refl (Same-Tracks g t (doc.open-refuses spec key_file dev name s r bad)))
        ]
      ]

  -- Whichever step of `run_inner` fails, and if none does, the guard tracks the machine.
  pub guarded-Ends :
      (spec : CipherSpec) (key_bytes : List ℕ) (map_name : String) (g : Guard) (s : S)
      → Inv g s
      → Empty g
      → Ends Any (guarded h spec key_bytes backing key map_name g s)
  unfolding guarded key_file_str
  guarded-Ends spec key_bytes map_name g s t empty =
      >>=-Ends _ _ g s
        (call-Ends {Q = Empty} _ _ g s
          (Quiet-Tracks backing g (inl refl) t (doc.create_file-Quiet _ _ s)) empty)
        (λ _ g s t empty.
          >>=-Ends _ _ g s
            (call-Ends {Q = Empty} _ _ g s
              (Quiet-Tracks key g (inr refl) t (doc.write_file-Quiet _ _ s)) empty)
            (λ _ g s t empty.
              >>=-Ends _ _ g s (attach-Ends g s t.backing_path t empty) (λ dev g s t no_map.
                >>=-Ends _ _ g s (key_file_str-Ends g s t no_map) (λ key_file g s t no_map.
                  >>=-Ends _ _ g s (open_mapping-Ends spec key_file dev map_name g s t no_map)
                    (λ _ g s t _.
                      >>=-Ends _ _ g s
                        (call-Ends {Q = Any} _ _ g s (Same-Tracks g t (doc.write_device-Same _ _ s))
                          tt)
                        (λ _ g s t _.
                          >>=-Ends _ _ g s
                            (call-Ends {Q = Any} _ _ g s (Same-Tracks g t (doc.read_file-Same _ s))
                              tt)
                            (λ bytes g s t _. long_enough bytes g s t)))))))
    where
      key_file_str-Ends :
          (g : Guard) (s : S) → Inv g s → Unmapped g → Ends Unmapped (key_file_str h g s)
      key_file_str-Ends g s t no_map = elim (Bool-cases h.temp_dir_is_utf8) [
        | inl utf8 ↦ rw (key_file_str, utf8) (goes_on _ refl t no_map)
        | inr other ↦ rw (key_file_str, other) (stops _ refl t)
      ]

      long_enough :
          (bytes : List ℕ) (g : Guard) (s : S)
          → Inv g s
          → Ends Any (
              if ltb (length bytes) fixture_len
              then (err "backing file shorter than expected after write", g, s)
              else (ok (take fixture_len bytes), g, s))
      long_enough bytes g s t = elim (Bool-cases (ltb (length bytes) fixture_len)) [
        | inl short ↦ rw short (stops _ refl t)
        | inr long ↦ rw long (goes_on _ refl t tt)
      ]

  pub tracked :
      {A : Type 0} {Q : Guard → Type 0} {r : Result String A × Guard × S} → Ends Q r → Inv r.1 r.2
  tracked (goes_on a e t q) = t
  tracked (stops x e t) = t
