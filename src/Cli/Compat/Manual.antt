-- ===== src/Cli/Compat/Manual.antt =====
-- What the documentation says of the commands that the `cryptsetup` check runs, and what its guard
-- has to hold.
use nocap_crypt.Base.{ℕ, ◌≡◌, ◌≢◌, ◌↔◌, ◌⊎◌, true, false, some, String, List, [], ◌∷◌}
use nocap_crypt.Base.Result.{ok, err}
use nocap_crypt.Base.Text.{trim}
use nocap_crypt.Core.CipherSpec.{CipherSpec}
use nocap_crypt.Cli.Compat.Machine.{Host, Output, Status}
use nocap_crypt.Cli.Compat.{Guard, open_args}

-- What can be seen of a machine: which files exist, which loop devices are attached, and which
-- mappings are open.
pub record View (h : Host) : Type 1 where
  pub Exists : h.S → String → Type 0
  pub Attached : h.S → String → Type 0
  pub Mapped : h.S → String → Type 0

module _ (h : Host) (v : View h) where
  open h use {S}
  open v use {Exists, Attached, Mapped}

  -- A call that touches one file at most.
  pub record Quiet (path : String) (s s' : S) : Type 0 where
    pub attached : (d : String) → Attached s' d ↔ Attached s d
    pub mapped : (m : String) → Mapped s' m ↔ Mapped s m
    pub files : (f : String) → f ≢ path → Exists s' f ↔ Exists s f

  -- A call that changes none of these.
  pub record Same (s s' : S) : Type 0 where
    pub attached : (d : String) → Attached s' d ↔ Attached s d
    pub mapped : (m : String) → Mapped s' m ↔ Mapped s m
    pub files : (f : String) → Exists s' f ↔ Exists s f

  -- The device was free, and is attached now.
  pub record Attaches (dev : String) (s s' : S) : Type 0 where
    pub was_free : ¬ Attached s dev
    pub attached : (d : String) → Attached s' d ↔ (Attached s d ⊎ (dev ≡ d))
    pub mapped : (m : String) → Mapped s' m ↔ Mapped s m
    pub files : (f : String) → Exists s' f ↔ Exists s f

  -- The name was free, and is a mapping now.
  pub record Maps (name : String) (s s' : S) : Type 0 where
    pub was_free : ¬ Mapped s name
    pub attached : (d : String) → Attached s' d ↔ Attached s d
    pub mapped : (m : String) → Mapped s' m ↔ (Mapped s m ⊎ (name ≡ m))
    pub files : (f : String) → Exists s' f ↔ Exists s f

  -- The manual pages: `losetup --find` takes a free device, `cryptsetup open` a free name, and a
  -- command that fails sets nothing up. Calls on a file touch that file. `close`, `-d` and `unlink`
  -- touch nothing but what they are asked to take away; whether they succeed is left open, as the
  -- detaching of a device that is in use is put off and a mapping that is in use stays. Nobody else
  -- acts on the machine during a run.
  pub record IsDocumented : Type 0 where
    pub create_file-Quiet :
        (path : String) (len : ℕ) (s : S) → Quiet path s (h.create_file path len s).1
    pub write_file-Quiet :
        (path : String) (bs : List ℕ) (s : S) → Quiet path s (h.write_file path bs s).1
    pub read_file-Same : (path : String) (s : S) → Same s (h.read_file path s).1
    pub write_device-Same :
        (path : String) (bs : List ℕ) (s : S) → Same s (h.write_device path bs s).1
    pub losetup-error :
        (path : String) (s : S) {e : String}
        → (h.losetup_find path s).0 ≡ err e
        → Same s (h.losetup_find path s).1
    pub losetup-refuses :
        (path : String) (s : S) {out : Output}
        → (h.losetup_find path s).0 ≡ ok out
        → out.success ≡ false
        → Same s (h.losetup_find path s).1
    pub losetup-Attaches :
        (path : String) (s : S) {out : Output}
        → (h.losetup_find path s).0 ≡ ok out
        → out.success ≡ true
        → Attaches (trim out.stdout) s (h.losetup_find path s).1
    pub open-error :
        (spec : CipherSpec) (key_file dev name : String) (s : S) {e : String}
        → (h.cryptsetup (open_args spec key_file dev name) s).0 ≡ err e
        → Same s (h.cryptsetup (open_args spec key_file dev name) s).1
    pub open-refuses :
        (spec : CipherSpec) (key_file dev name : String) (s : S) {st : Status}
        → (h.cryptsetup (open_args spec key_file dev name) s).0 ≡ ok st
        → st.success ≡ false
        → Same s (h.cryptsetup (open_args spec key_file dev name) s).1
    pub open-Maps :
        (spec : CipherSpec) (key_file dev name : String) (s : S) {st : Status}
        → (h.cryptsetup (open_args spec key_file dev name) s).0 ≡ ok st
        → st.success ≡ true
        → Maps name s (h.cryptsetup (open_args spec key_file dev name) s).1
    pub close-others :
        (name : String) (s : S) (m : String)
        → name ≢ m
        → Mapped (h.cryptsetup ("close" ∷ name ∷ []) s).1 m ↔ Mapped s m
    pub close-attached :
        (name : String) (s : S) (d : String)
        → Attached (h.cryptsetup ("close" ∷ name ∷ []) s).1 d ↔ Attached s d
    pub close-files :
        (name : String) (s : S) (f : String)
        → Exists (h.cryptsetup ("close" ∷ name ∷ []) s).1 f ↔ Exists s f
    pub detach-others :
        (dev : String) (s : S) (d : String)
        → dev ≢ d
        → Attached (h.losetup_detach dev s) d ↔ Attached s d
    pub detach-mapped :
        (dev : String) (s : S) (m : String) → Mapped (h.losetup_detach dev s) m ↔ Mapped s m
    pub detach-files :
        (dev : String) (s : S) (f : String) → Exists (h.losetup_detach dev s) f ↔ Exists s f
    pub remove-others :
        (path : String) (s : S) (f : String)
        → path ≢ f
        → Exists (h.remove_file path s) f ↔ Exists s f
    pub remove-attached :
        (path : String) (s : S) (d : String) → Attached (h.remove_file path s) d ↔ Attached s d
    pub remove-mapped :
        (path : String) (s : S) (m : String) → Mapped (h.remove_file path s) m ↔ Mapped s m

  -- The guard holds exactly what was set up since `s₀`, besides the two files at its paths.
  pub record Tracks (backing key : String) (s₀ : S) (g : Guard) (s : S) : Type 0 where
    pub attached : (d : String) → Attached s d ↔ (Attached s₀ d ⊎ (g.loop_dev ≡ some d))
    pub mapped : (m : String) → Mapped s m ↔ (Mapped s₀ m ⊎ (g.map_name ≡ some m))
    pub new_loop : (d : String) → g.loop_dev ≡ some d → ¬ Attached s₀ d
    pub new_map : (m : String) → g.map_name ≡ some m → ¬ Mapped s₀ m
    pub files : (f : String) → f ≢ backing → f ≢ key → Exists s f ↔ Exists s₀ f
    pub backing_path : g.backing_path ≡ backing
    pub key_path : g.key_path ≡ key

  -- How the drop of a guard goes, from `s₁` to `s`, after a run that began at `s₀`. `cryptsetup close` is
  -- called on the mapping of the guard, `losetup -d` on its loop device after that, and `unlink` on its
  -- two files, and any of these may fail. The loop devices and the mappings are then those from before,
  -- and the one of the guard if it was still there after its call. A file that is new is one of the two,
  -- still there after its `unlink`; and no file but the two is gone.
  pub record TornDown (backing key : String) (g : Guard) (s₀ s₁ s : S) : Type 0 where
    pub closed : S
    pub detached : S
    pub removed : S
    pub close_called :
        (m : String) → g.map_name ≡ some m → closed ≡ (h.cryptsetup ("close" ∷ m ∷ []) s₁).1
    pub detach_called : (d : String) → g.loop_dev ≡ some d → detached ≡ h.losetup_detach d closed
    pub backing_unlinked : removed ≡ h.remove_file backing detached
    pub key_unlinked : s ≡ h.remove_file key removed
    pub new_loop : (d : String) → g.loop_dev ≡ some d → ¬ Attached s₀ d
    pub new_map : (m : String) → g.map_name ≡ some m → ¬ Mapped s₀ m
    pub attached :
        (d : String)
        → Attached s d ↔ (Attached s₀ d ⊎ ((g.loop_dev ≡ some d) × Attached detached d))
    pub mapped :
        (m : String) → Mapped s m ↔ (Mapped s₀ m ⊎ ((g.map_name ≡ some m) × Mapped closed m))
    pub new_file :
        (f : String) → Exists s f → Exists s₀ f ⊎ (((f ≡ backing) × Exists removed f) ⊎ (f ≡ key))
    pub kept_file : (f : String) → f ≢ backing → f ≢ key → Exists s₀ f → Exists s f
