-- ===== src/Keymgmt/KeyFile.antt =====
-- crates/nocap-crypt-keymgmt/src/keygen.rs: random keys, and the files that they are written to.
use nocap_crypt.Base.{
  ℕ, ◌≡◌, refl, ◌⊎◌, inl, inr, Bool, true, false, ◌&&◌, not, Option, none, some, List, length,
  if◌then◌else◌,
}
use nocap_crypt.Base.Bytes.{IsBytes}
use nocap_crypt.Base.Result.{Result, ok, err}
use nocap_crypt.Core.CipherSpec.{CipherSpec, required_key_bytes}
use nocap_crypt.Core.CipherSpec.Laws.{IsSupported}
use nocap_crypt.Core.Primitives.{Primitives, IsLawful}
use nocap_crypt.Core.Engine.{SectorEngine, new}
use nocap_crypt.Core.Engine.Laws.Keyed.{IsKeyed, new-ok}

-- `SysRng`: a buffer of the given length is filled, or the system has no entropy.
abbrev pub SysRng : Type 0
SysRng = ℕ → Option (List ℕ)

pub record IsRng (rng : SysRng) : Type 0 where
  pub filled : (n : ℕ) {key : List ℕ} → rng n ≡ some key → (length key ≡ n) × IsBytes key

-- `generate_key`; `none` is the panic of its `expect`.
unfoldable pub generate_key : SysRng → CipherSpec → Option (List ℕ)
generate_key rng spec = rng (required_key_bytes spec)

-- A key that was generated for a supported spec has the length that the engine asks for, so that an
-- engine can be built with it.
pub generate_key-new :
    (p : Primitives) (lawful : IsLawful p) (rng : SysRng) (fair : IsRng rng) (spec : CipherSpec)
    {key : List ℕ}
    → IsSupported spec
    → generate_key rng spec ≡ some key
    → (e : SectorEngine) × (new p spec key ≡ ok e) × IsKeyed e
unfolding generate_key
generate_key-new p lawful rng fair spec {key} sup h =
    let (size, whole) = fair.filled (required_key_bytes spec) h in
    new-ok p lawful spec key sup whole size

-- A file's bytes and its permission bits.
pub record Entry : Type 0 where
  pub content : List ℕ
  pub mode : ℕ

-- What is at the path, and the system's part in a write: whether `open` succeeds, what is left of a
-- mode by the umask, and what `write_all` has put into the file when it ends.
pub record Fs : Type 0 where
  pub open_error : Option ℕ
  pub masked : ℕ → ℕ
  pub write_all : List ℕ → Result (ℕ × List ℕ) (Unit {0})

pub data KeyFileWriteError : Type 0 where
  already_exists : KeyFileWriteError
  io : ℕ → KeyFileWriteError

-- `apply_restrictive_mode`: 0o600
abbrev pub restrictive_mode : ℕ
restrictive_mode = 384

abbrev pub exists : Option Entry → Bool
exists none = false
exists (some e) = true

-- The mode that the opened file has: O_CREAT sets one for a new file only.
abbrev pub opened_mode : Fs → Option Entry → ℕ
opened_mode fs none = fs.masked restrictive_mode
opened_mode fs (some e) = e.mode

-- `file.write_all(key)` on the truncated file.
unfoldable pub fill : Fs → List ℕ → ℕ → Result KeyFileWriteError (Unit {0}) × Option Entry
fill fs key mode = elim (fs.write_all key) [
  | ok u ↦ (ok tt, some (record { content = key; mode = mode }))
  | err e ↦ (err (io e.0), some (record { content = e.1; mode = mode }))
]

-- `write_key_file`: the result, and what is at the path afterwards.
unfoldable pub write_key_file :
    Fs → Option Entry → List ℕ → Bool → Result KeyFileWriteError (Unit {0}) × Option Entry
write_key_file fs path key force =
    if exists path && not force then (err already_exists, path) else elim fs.open_error [
      | some n ↦ (err (io n), path)
      | none ↦ fill fs key (opened_mode fs path)
    ]

-- The mode of a file that was written: the old one, or the restrictive one without what the umask
-- takes.
pub data ModeAfter (fs : Fs) : Option Entry → ℕ → Type 0 where
  kept : (e : Entry) → ModeAfter fs (some e) e.mode
  restricted : ModeAfter fs none (fs.masked restrictive_mode)

-- How a write can end: it is refused and changes nothing, or the file cannot be opened and nothing
-- changes, or the bytes are cut short, or the file holds the key alone. In the last two the file is
-- new or `force` was given.
pub data Written (fs : Fs) (path : Option Entry) (key : List ℕ) (force : Bool)
    (r : Result KeyFileWriteError (Unit {0}) × Option Entry) : Type 0 where
  refused :
      r ≡ (err already_exists, path)
      → exists path ≡ true
      → force ≡ false
      → Written fs path key force r
  unopened : (n : ℕ) → r ≡ (err (io n), path) → fs.open_error ≡ some n → Written fs path key force r
  cut_short :
      (n mode : ℕ) (partly : List ℕ)
      → r ≡ (err (io n), some (record { content = partly; mode = mode }))
      → fs.write_all key ≡ err (n, partly)
      → ModeAfter fs path mode
      → (exists path ≡ false) ⊎ (force ≡ true)
      → Written fs path key force r
  stored :
      (mode : ℕ)
      → r ≡ (ok tt, some (record { content = key; mode = mode }))
      → ModeAfter fs path mode
      → (exists path ≡ false) ⊎ (force ≡ true)
      → Written fs path key force r

opened_mode-ModeAfter : (fs : Fs) (path : Option Entry) → ModeAfter fs path (opened_mode fs path)
opened_mode-ModeAfter fs none = restricted
opened_mode-ModeAfter fs (some e) = kept e

pub ModeAfter-opened_mode :
    (fs : Fs) (path : Option Entry) {mode : ℕ} → ModeAfter fs path mode → mode ≡ opened_mode fs path
ModeAfter-opened_mode fs path (kept e) = refl
ModeAfter-opened_mode fs path restricted = refl

from_fill :
    (fs : Fs) (path : Option Entry) (key : List ℕ) (force : Bool)
    → (exists path ≡ false) ⊎ (force ≡ true)
    → (w : Result (ℕ × List ℕ) (Unit {0})) → fs.write_all key ≡ w
    → Written fs path key force (elim w [
      | ok u ↦ (ok tt, some (record { content = key; mode = opened_mode fs path }))
      | err e ↦ (err (io e.0), some (record { content = e.1; mode = opened_mode fs path }))
    ])
from_fill fs path key force may (ok u) e = stored _ refl (opened_mode-ModeAfter fs path) may
from_fill fs path key force may (err x) e =
    cut_short x.0 _ x.1 refl e (opened_mode-ModeAfter fs path) may

from_open :
    (fs : Fs) (path : Option Entry) (key : List ℕ) (force : Bool)
    → (exists path ≡ false) ⊎ (force ≡ true)
    → (o : Option ℕ) → fs.open_error ≡ o
    → Written fs path key force
        (elim o [ some n ↦ (err (io n), path) | none ↦ fill fs key (opened_mode fs path) ])
unfolding fill
from_open fs path key force may (some n) e = unopened n refl e
from_open fs path key force may none e = from_fill fs path key force may (fs.write_all key) refl

-- Without `force` a file that exists is refused and stays as it is, and so does the path if the file
-- cannot be opened. Where the write fails, the file holds the bytes that the system did write, and
-- where `write_key_file` returns `Ok`, exactly the key. Either way a new file has the mode 0o600 less
-- the umask, and a file that was there keeps its permission bits, whatever they are.
pub write_key_file-Written :
    (fs : Fs) (path : Option Entry) (key : List ℕ) (force : Bool)
    → Written fs path key force (write_key_file fs path key force)
unfolding write_key_file fill
write_key_file-Written fs (some e) key false = refused refl refl refl
write_key_file-Written fs none key force = from_open fs none key force (inl refl) fs.open_error refl
write_key_file-Written fs (some e) key true =
    from_open fs (some e) key true (inr refl) fs.open_error refl
