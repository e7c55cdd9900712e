-- ===== src/Cli/Compat/Reports.antt =====
-- What the outcome of the `cryptsetup` check says of the two ciphertexts.
use nocap_crypt.Base.{
  true, false, ℕ, zero, suc, ◌≡◌, refl, ◌≢◌, ◌⊎◌, inl, inr, Option, none, some, String, List,
  length, Bool-cases, Option-cases, arith,
}
use nocap_crypt.Base.Bytes.{bytes_eq, bytes_eq_iff}
use nocap_crypt.Base.Result.{Result, ok, err, Result-cases, not_ok, Fault, failed, panicked}
use nocap_crypt.Core.CipherSpec.{CipherSpec}
use nocap_crypt.Core.CipherSpec.Laws.{IsSupported}
use nocap_crypt.Core.Primitives.{Primitives}
use nocap_crypt.Core.Engine.{KeyError, wrong_length, SectorEngine, new, encrypt_range}
use nocap_crypt.Core.Engine.Laws.Keyed.{new-no_panic}
use nocap_crypt.Cli.Compat.Machine.{Host}
use nocap_crypt.Cli.Compat.Steps.{Completed, body, Completed-ok, ok-Completed}
use nocap_crypt.Cli.Compat.{
  Outcome, match, mismatch, cryptsetup_not_found, operational_error, Guard, counting, plaintext,
  fixture_skip_sectors, fixture_len, key_error, ours, finish, run_inner, outcome_of, run,
}

length-counting : (i n : ℕ) → length (counting i n) ≡ n
unfolding counting
length-counting i zero = refl
length-counting i (suc n) = omega (arith, length-counting (suc i) n)

-- The fixture is whole sectors, so that the engine takes it.
pub fixture-encrypts :
    (p : Primitives) (e : SectorEngine) (first : ℕ)
    → (buf : List ℕ) × (encrypt_range p e first plaintext ≡ some buf)
unfolding plaintext
fixture-encrypts p e first = elim (Option-cases (encrypt_range p e first plaintext)) [
  | inr found ↦ found
  | inl none_ ↦ absurd (refused none_)
]
  where
    refused : encrypt_range p e first plaintext ≡ none → ⊥
    refused r = unfold encrypt_range in ground (arith, length-counting 0 fixture_len)

-- For a supported spec, building the engine and its ciphertext ends with bytes or an error, and not
-- with a panic.
data Ours (p : Primitives) (spec : CipherSpec) (key : List ℕ) (r : Result (Fault String) (List ℕ))
    : Type 0 where
  built :
      (engine : SectorEngine) (buf : List ℕ)
      → new p spec key ≡ ok engine
      → encrypt_range p engine fixture_skip_sectors plaintext ≡ some buf
      → r ≡ ok buf
      → Ours p spec key r
  refused :
      (e : KeyError) (detail : String)
      → new p spec key ≡ err (failed e)
      → r ≡ err (failed detail)
      → Ours p spec key r

ours-Ours :
    (h : Host) (p : Primitives) (spec : CipherSpec) (key : List ℕ)
    → IsSupported spec
    → Ours p spec key (ours h p spec key)
unfolding ours key_error
ours-Ours h p spec key sup = elim (Result-cases (new p spec key)) [
  | inl (engine, r) ↦
      let (buf, enc) = fixture-encrypts p engine fixture_skip_sectors in
      built engine buf r enc (rw (ours, r, enc) refl)
  | inr (panicked, r) ↦ absurd (new-no_panic p spec key sup r)
  | inr (failed (wrong_length expected actual), r) ↦ rw (ours, r) (refused _ _ r refl)
]

module _ (h : Host) where
  open h use {S}

  -- What a run reports: that there is no `cryptsetup`; an error, where no engine can be built with the
  -- key or some step does not succeed; and where all do, how the bytes that were read back compare to
  -- the engine's ciphertext of the fixture.
  pub data Reported (p : Primitives) (spec : CipherSpec) (key : List ℕ) (s : S) (r : Option Outcome)
      : Type 0 where
    missing : h.has_cryptsetup s ≡ false → r ≡ some cryptsetup_not_found → Reported p spec key s r
    unkeyed :
        (e : KeyError) (detail : String)
        → h.has_cryptsetup s ≡ true
        → new p spec key ≡ err (failed e)
        → r ≡ some (operational_error detail)
        → Reported p spec key s r
    not_made :
        (engine : SectorEngine) (detail : String)
        → h.has_cryptsetup s ≡ true
        → new p spec key ≡ ok engine
        → ((real : List ℕ) → ¬ Completed h spec key s real)
        → r ≡ some (operational_error detail)
        → Reported p spec key s r
    compared :
        (engine : SectorEngine) (expected real : List ℕ) (o : Outcome)
        → h.has_cryptsetup s ≡ true
        → new p spec key ≡ ok engine
        → encrypt_range p engine fixture_skip_sectors plaintext ≡ some expected
        → Completed h spec key s real
        → ((o ≡ match) × (real ≡ expected)) ⊎ ((o ≡ mismatch) × (real ≢ expected))
        → r ≡ some o
        → Reported p spec key s r

  -- For a supported spec, the check does not panic. Without `cryptsetup` it says so. An operational
  -- error is reported exactly if no engine can be built with the key, or a step of the run does not
  -- succeed: the making of the files, the text of the key's path, which must be UTF-8, the
  -- commands, the write through the mapping, the read of the backing file after it, which must not
  -- be short. Otherwise the first bytes that this read gave are compared to the engine's ciphertext
  -- of the fixture: a match if they are the same, a mismatch if not.
  pub run-Reported :
      (p : Primitives) (spec : CipherSpec) (key : List ℕ) (s : S)
      → IsSupported spec
      → Reported p spec key s (run h p spec key s).0
  unfolding run run_inner
  run-Reported p spec key s sup = elim (Bool-cases (h.has_cryptsetup s)) [
    | inr absent ↦ rw (run, absent) (missing absent refl)
    | inl found ↦ elim (ours-Ours h p spec key sup) [
      | refused e detail n r ↦
          rw (run, found, run_inner, r) (unkeyed e detail found n (unfold outcome_of in refl))
      | built engine expected n enc r ↦
          rw (run, found, run_inner, r)
            (finished engine expected found n enc (body h spec key s)
              (λ real. ok-Completed h spec key s) (λ real. Completed-ok h spec key s))
    ]
  ]
    where
      compare :
          (engine : SectorEngine) (expected real : List ℕ)
          → h.has_cryptsetup s ≡ true
          → new p spec key ≡ ok engine
          → encrypt_range p engine fixture_skip_sectors plaintext ≡ some expected
          → Completed h spec key s real
          → Reported p spec key s (outcome_of h p (ok (bytes_eq real expected)))
      compare engine expected real found n enc done = elim (Bool-cases (bytes_eq real expected)) [
        | inl same ↦ rw same (
            compared engine expected real match found n enc done
              (inl (refl, (bytes_eq_iff real expected).0 same)) (unfold outcome_of in refl))
        | inr other ↦ rw other (
            compared engine expected real mismatch found n enc done
              (inr (refl, λ e. cc ((bytes_eq_iff real expected).1 e, other)))
              (unfold outcome_of in refl))
      ]

      finished :
          (engine : SectorEngine) (expected : List ℕ)
          → h.has_cryptsetup s ≡ true
          → new p spec key ≡ ok engine
          → encrypt_range p engine fixture_skip_sectors plaintext ≡ some expected
          → (r : Result String (List ℕ) × Guard × S)
          → ((real : List ℕ) → r.0 ≡ ok real → Completed h spec key s real)
          → ((real : List ℕ) → Completed h spec key s real → r.0 ≡ ok real)
          → Reported p spec key s (outcome_of h p (finish h p expected r).0)
      finished engine expected found n enc (ok real, g, s') to from =
          unfold finish in compare engine expected real found n enc (to real refl)
      finished engine expected found n enc (err e, g, s') to from =
          unfold finish outcome_of in
          not_made engine e found n (λ real done. not_ok (from real done)) refl
