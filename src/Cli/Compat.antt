-- ===== src/Cli/Compat.antt =====
-- crates/nocap-crypt-cli/src/cryptsetup_compat.rs: `--dry-run-cryptsetup-compat` on Linux, the check
-- of the engine's ciphertext against that of a real `cryptsetup`. The commands and the file system are
-- a parameter that acts on the machine.
pub mod Machine
pub mod Manual
pub mod Teardown
pub mod Runs
pub mod Steps
pub mod Reports
mod Tests
use Prim.Native.Char.{code}
use Prim.Native.String.{◌++◌ as ◌<>◌}
use nocap_crypt.Base.{
  ℕ, zero, suc, ◌+◌, ◌*◌, ◌%◌, Bool, true, false, not, Option, none, some, List, [], ◌∷◌, take,
  length, ltb, ◌==◌, String, str_eq, if◌then◌else◌,
}
use nocap_crypt.Base.Bytes.{bytes_eq}
use nocap_crypt.Base.Result.{Result, ok, err, map_err, ok_or, Fault, failed, panicked}
use nocap_crypt.Base.Text.{show_nat, trim}
use nocap_crypt.Core.CipherSpec.{CipherSpec, as_str, required_key_bytes}
use nocap_crypt.Core.Primitives.{Primitives}
use nocap_crypt.Core.Iv.{sector_size}
use nocap_crypt.Core.Engine.{KeyError, wrong_length, SectorEngine, new, encrypt_range}
use nocap_crypt.Cli.Compat.Machine.{Host, Output}

abbrev pub fixture_sectors : ℕ
fixture_sectors = 4

abbrev pub fixture_skip_sectors : ℕ
fixture_skip_sectors = 17

pub data Outcome : Type 0 where
  cryptsetup_not_found unsupported_platform match mismatch : Outcome
  operational_error : String → Outcome

-- `Outcome::is_failure`
unfoldable pub is_failure : Outcome → Bool
is_failure mismatch = true
is_failure _ = false

-- `Outcome::message`
unfoldable pub message : Outcome → String
message cryptsetup_not_found = "--dry-run-cryptsetup-compat: cryptsetup not found on PATH, skipping"
message unsupported_platform =
    "--dry-run-cryptsetup-compat: needs Linux + dm-crypt + loop devices, skipping on this platform"
message (operational_error detail) =
    "--dry-run-cryptsetup-compat: could not complete (likely needs root/CAP_SYS_ADMIN "
    <> "— see specs/fips_check.md Tier 4): " <> detail
message match =
    "--dry-run-cryptsetup-compat: MATCH ("
    <> show_nat fixture_sectors
    <> " sectors at sector "
    <> show_nat fixture_skip_sectors
    <> ", bit-for-bit identical to real cryptsetup output)"
message mismatch =
    "--dry-run-cryptsetup-compat: MISMATCH — ciphertext differs from real cryptsetup output"

-- `struct Guard`
pub record Guard : Type 0 where
  pub map_name : Option String
  pub loop_dev : Option String
  pub backing_path : String
  pub key_path : String

-- The bytes 0, 1, ..., from the one that is given on.
pub counting : ℕ → ℕ → List ℕ
counting i zero = []
counting i (suc n) = (i % 256) ∷ counting (suc i) n

abbrev pub fixture_len : ℕ
fixture_len = fixture_sectors * sector_size

unfoldable pub plaintext : List ℕ
unfolding counting
plaintext = counting 0 fixture_len

-- `Display` of `KeyError`
unfoldable pub key_error : Fault KeyError → Fault String
key_error panicked = panicked
key_error (failed (wrong_length expected actual)) = failed (
    "building engine: expected a "
    <> show_nat expected
    <> "-byte key, got "
    <> show_nat actual
    <> " bytes")

-- The arguments of `cryptsetup open`.
unfoldable pub open_args : CipherSpec → String → String → String → List String
open_args spec key_file loop_dev map_name =
    "open"
    ∷ "--type"
    ∷ "plain"
    ∷ "--cipher"
    ∷ as_str spec
    ∷ "--key-size"
    ∷ show_nat (required_key_bytes spec * 8)
    ∷ "--key-file"
    ∷ key_file
    ∷ "--skip"
    ∷ show_nat fixture_skip_sectors
    ∷ loop_dev
    ∷ map_name
    ∷ []

-- Whether a path's text ends in `/`.
ends_in_slash : String → Bool
ends_in_slash String.[] = false
ends_in_slash (String.◌∷◌ c s) =
    let rest = ends_in_slash s in if str_eq s "" then code c == b'/' else rest

-- `Path::join`, with a relative name.
unfoldable pub join : String → String → String
unfolding ends_in_slash
join dir name =
    if str_eq dir "" then name else if ends_in_slash dir then dir <> name else dir <> "/" <> name

module _ (h : Host) where
  open h use {S}

  -- `Drop for Guard`
  unfoldable pub close_mapping : Option String → S → S
  close_mapping none s = s
  close_mapping (some name) s = (h.cryptsetup ("close" ∷ name ∷ []) s).1

  unfoldable pub detach_loop : Option String → S → S
  detach_loop none s = s
  detach_loop (some dev) s = h.losetup_detach dev s

  unfoldable pub drop_guard : Guard → S → S
  drop_guard g s =
      h.remove_file g.key_path
        (h.remove_file g.backing_path (detach_loop g.loop_dev (close_mapping g.map_name s)))

  -- A step of `run_inner`: the value or the message of the error, and the guard and the machine as
  -- they are then.
  abbrev pub Step : Type 0 → Type 0
  Step A = Guard → S → Result String A × Guard × S

  infixl 5 ◌>>=◌ ◌>>◌
  unfoldable pub ◌>>=◌ : {A B : Type 0} → Step A → (A → Step B) → Step B
  ◌>>=◌ m f g s = elim (m g s).0 [
    | ok a ↦ f a (m g s).1 (m g s).2
    | err e ↦ (err e, (m g s).1, (m g s).2)
  ]

  abbrev pub ◌>>◌ : {B : Type 0} → Step (Unit {0}) → Step B → Step B
  m >> k = m >>= λ _. k

  -- A call with `map_err(|e| format!("{context}{e}"))`.
  unfoldable pub call : {A : Type 0} → String → (S → Result String A × S) → Step A
  call context op g s = (map_err (op s).0 (λ e. context <> e), g, (op s).1)

  -- `losetup --find --show` on the backing file, and its result in the guard.
  unfoldable pub attach : Step String
  attach g s = elim (h.losetup_find g.backing_path s).0 [
    | err e ↦ (err ("running losetup: " <> e), g, (h.losetup_find g.backing_path s).1)
    | ok out ↦
        if out.success
        then (
          ok (trim out.stdout),
          record g { loop_dev = some (trim out.stdout) },
          (h.losetup_find g.backing_path s).1,
        )
        else (err ("losetup failed: " <> trim out.stderr), g, (h.losetup_find g.backing_path s).1)
  ]

  -- `cryptsetup open`, and the mapping in the guard.
  unfoldable pub open_mapping : List String → String → Step (Unit {0})
  open_mapping args map_name g s = elim (h.cryptsetup args s).0 [
    | err e ↦ (err ("running cryptsetup open: " <> e), g, (h.cryptsetup args s).1)
    | ok status ↦
        if status.success
        then (ok tt, record g { map_name = some map_name }, (h.cryptsetup args s).1)
        else (err ("cryptsetup open exited with " <> status.display), g, (h.cryptsetup args s).1)
  ]

  -- `key_path.to_str()`
  unfoldable pub key_file_str : Step String
  key_file_str g s =
      if h.temp_dir_is_utf8
      then (ok g.key_path, g, s)
      else (err "temp key path is not valid UTF-8", g, s)

  -- `run_inner` while its guard lives: the first bytes of the backing file at the end.
  unfoldable pub guarded : CipherSpec → List ℕ → String → String → String → Step (List ℕ)
  guarded spec key backing_path key_path map_name =
      call "creating backing file: " (h.create_file backing_path (fixture_sectors * sector_size))
      >> (call "writing key file: " (h.write_file key_path key)
          >> (attach >>= λ loop_dev. key_file_str >>= λ key_file.
              open_mapping (open_args spec key_file loop_dev map_name) map_name
              >> (call "writing through dm-crypt mapping: "
                    (h.write_device ("/dev/mapper/" <> map_name) plaintext)
                  >> (call "reading backing file: " (h.read_file backing_path)
                      >>= λ backing_bytes g s.
                          if ltb (length backing_bytes) fixture_len
                          then (err "backing file shorter than expected after write", g, s)
                          else (ok (take fixture_len backing_bytes), g, s)))))

  -- The names that `run_inner` makes from the process id.
  unfoldable pub temp_name : String
  temp_name = "nocap-crypt-compat-" <> show_nat h.pid

  unfoldable pub new_guard : Guard
  new_guard = record {
    map_name = none;
    loop_dev = none;
    backing_path = join h.temp_dir (temp_name <> ".img");
    key_path = join h.temp_dir (temp_name <> ".key");
  }

  module _ (p : Primitives) where
    -- The engine's ciphertext of the fixture.
    unfoldable pub ours : CipherSpec → List ℕ → Result (Fault String) (List ℕ)
    ours spec key = elim (new p spec key) [
      | err e ↦ err (key_error e)
      | ok engine ↦ ok_or (encrypt_range p engine fixture_skip_sectors plaintext) panicked
    ]

    -- The end of `run_inner`: its guard is dropped, whether a step failed or not.
    unfoldable pub finish :
        List ℕ → Result String (List ℕ) × Guard × S → Result (Fault String) Bool × S
    finish expected (ok real, g, s) = (ok (bytes_eq real expected), drop_guard g s)
    finish expected (err e, g, s) = (err (failed e), drop_guard g s)

    unfoldable pub run_inner : CipherSpec → List ℕ → S → Result (Fault String) Bool × S
    run_inner spec key s = elim (ours spec key) [
      | err e ↦ (err e, s)
      | ok expected ↦
          finish expected
            (guarded spec key new_guard.backing_path new_guard.key_path temp_name new_guard s)
    ]

    -- The `match` of `run`; `none` is a panic.
    unfoldable pub outcome_of : Result (Fault String) Bool → Option Outcome
    outcome_of (ok true) = some match
    outcome_of (ok false) = some mismatch
    outcome_of (err (failed detail)) = some (operational_error detail)
    outcome_of (err panicked) = none

    -- `platform::run`
    unfoldable pub run : CipherSpec → List ℕ → S → Option Outcome × S
    run spec key s =
        if h.has_cryptsetup s
        then (outcome_of (run_inner spec key s).0, (run_inner spec key s).1)
        else (some cryptsetup_not_found, s)
