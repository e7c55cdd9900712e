-- ===== src/Cli/Report.antt =====
-- A part of a command that may return early: it reports events, and gives a value, an exit code or a
-- panic.
use nocap_crypt.Base.{
  ◌≡◌, refl, Bool, true, false, Option, none, some, List, [], ◌∷◌, ◌++◌, String, sym, ◌∙◌,
  if◌then◌else◌, inl, inr, Bool-cases,
}
use nocap_crypt.Base.Result.{Result, ok, err, Fault, failed, panicked, not_ok}
use nocap_crypt.Ui.Event.{Event, error, narration}
use nocap_crypt.Cli.ExitCode.{ExitCode}
use nocap_crypt.Cli.Console.{has_error, is_error, fails}

-- The events have figures of the type `F`.
abbrev pub Report : Type 0 → Type 0 → Type 0
Report F A = List (Event F) × Result (Fault ExitCode) A

-- Whether a part ends the command with an exit code other than success.
abbrev pub bails : {A : Type 0} → Result (Fault ExitCode) A → Bool
bails (ok a) = false
bails (err panicked) = false
bails (err (failed exit)) = fails exit

module _ {F : Type 0} where
  -- `?`: the value goes on, an exit code or a panic ends the command.
  infixl 5 ◌>>=◌ ◌>>◌
  unfoldable pub ◌>>=◌ : {A B : Type 0} → Report F A → (A → Report F B) → Report F B
  m >>= f = elim m.1 [ ok a ↦ (m.0 ++ (f a).0, (f a).1) | err e ↦ (m.0, err e) ]

  unfoldable pub ◌>>◌ : {A B : Type 0} → Report F A → Report F B → Report F B
  m >> k = m >>= λ _. k

  -- A value, and nothing reported.
  abbrev pub pure : {A : Type 0} → A → Report F A
  pure a = ([], ok a)

  -- `reporter.report(event)`
  abbrev pub report : Event F → Report F (Unit {0})
  report event = (event ∷ [], ok tt)

  -- `if reporter.narrates() { .. }`
  abbrev pub narrate : Bool → String → Report F (Unit {0})
  narrate on text = if on then report (narration text) else pure tt

  -- An error, and the exit code that it ends the command with.
  abbrev pub bail : {A : Type 0} → ExitCode → String → Report F A
  bail exit text = (error text ∷ [], err (failed exit))

  -- A result whose error ends the command.
  abbrev pub or_bail : {E A : Type 0} → Result E A → ExitCode → (E → String) → Report F A
  or_bail (ok a) exit text = pure a
  or_bail (err e) exit text = bail exit (text e)

  -- A result that may be a panic.
  abbrev pub or_panic : {E A : Type 0} → Result (Fault E) A → ExitCode → (E → String) → Report F A
  or_panic (ok a) exit text = pure a
  or_panic (err panicked) exit text = ([], err panicked)
  or_panic (err (failed e)) exit text = bail exit (text e)

  abbrev pub or_panicked : {A : Type 0} → Option A → Report F A
  or_panicked (some a) = pure a
  or_panicked none = ([], err panicked)

  -- `if let Some(text) = .. { reporter.report(..) }`
  abbrev pub if_some : Option String → (String → Report F (Unit {0})) → Report F (Unit {0})
  if_some (some text) f = f text
  if_some none f = pure tt

  -- An error is reported exactly if the part ends the command with a failure.
  abbrev pub Tells : {A : Type 0} → Report F A → Type 0
  Tells m = has_error m.0 ≡ bails m.1

  has_error-append :
      (xs ys : List (Event F)) → has_error xs ≡ false → has_error (xs ++ ys) ≡ has_error ys
  has_error-append [] ys h = refl
  has_error-append (x ∷ xs) ys h = elim (Bool-cases (is_error x)) [
    | inl bad ↦ absurd (clash (rw bad at h))
    | inr good ↦ rw good (has_error-append xs ys (rw good at h))
  ]
    where
      clash : true ≡ false → ⊥
      clash e = cc

  pub bind-Tells :
      {A B : Type 0} (m : Report F A) (f : A → Report F B)
      → Tells m
      → ((a : A) → Tells (f a))
      → Tells (m >>= f)
  unfolding ◌>>=◌
  bind-Tells (events, ok a) f h k = has_error-append events (f a).0 h ∙ k a
  bind-Tells (events, err panicked) f h k = h
  bind-Tells (events, err (failed exit)) f h k = h

  pub then-Tells :
      {A B : Type 0} (m : Report F A) (k : Report F B) → Tells m → Tells k → Tells (m >> k)
  unfolding ◌>>◌
  then-Tells m k h g = bind-Tells m (λ _. k) h (λ _. g)

  pub if_some-Tells :
      (o : Option String) (f : String → Report F (Unit {0}))
      → ((text : String) → Tells (f text))
      → Tells (if_some o f)
  if_some-Tells (some text) f h = h text
  if_some-Tells none f h = refl

module _ (F : Type 0) where
  pub narrate-Tells : (on : Bool) (text : String) → Tells {F = F} (narrate on text)
  narrate-Tells true text = refl
  narrate-Tells false text = refl

  pub or_bail-Tells :
      {E A : Type 0} (r : Result E A) (exit : ExitCode) (text : E → String)
      → fails exit ≡ true
      → Tells {F = F} (or_bail r exit text)
  or_bail-Tells (ok a) exit text h = refl
  or_bail-Tells (err e) exit text h = sym h

  pub or_panic-Tells :
      {E A : Type 0} (r : Result (Fault E) A) (exit : ExitCode) (text : E → String)
      → fails exit ≡ true
      → Tells {F = F} (or_panic r exit text)
  or_panic-Tells (ok a) exit text h = refl
  or_panic-Tells (err panicked) exit text h = refl
  or_panic-Tells (err (failed e)) exit text h = sym h

  pub or_panicked-Tells : {A : Type 0} (o : Option A) → Tells {F = F} (or_panicked o)
  or_panicked-Tells (some a) = refl
  or_panicked-Tells none = refl

-- A command that goes on to a value has gone through each of its parts.
pub bind-ok :
    {F A B : Type 0} (m : Report F A) (f : A → Report F B) {b : B}
    → (m >>= f).1 ≡ ok b
    → (a : A) × (m.1 ≡ ok a) × ((f a).1 ≡ ok b)
unfolding ◌>>=◌
bind-ok (events, ok a) f h = (a, refl, h)
bind-ok (events, err e) f h = absurd (not_ok h)
