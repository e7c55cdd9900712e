-- ===== src/Cli/Compat/Machine.antt =====
-- The machine of the `cryptsetup` check: the commands and the calls on files, and what their
-- documentation says of files, loop devices and mappings.
use nocap_crypt.Base.{ℕ, Bool, String, List}
use nocap_crypt.Base.Result.{Result}

-- `process::ExitStatus`, with its `Display`.
pub record Status : Type 0 where
  pub success : Bool
  pub display : String

-- `process::Output`, with what `String::from_utf8_lossy` reads from the two streams.
pub record Output : Type 0 where
  pub success : Bool
  pub stdout : String
  pub stderr : String

-- Each call acts on the machine, also where it fails; an error is its `Display`.
pub record Host : Type 1 where
  pub S : Type 0
  pub pid : ℕ
  pub temp_dir : String
  pub temp_dir_is_utf8 : Bool
  pub has_cryptsetup : S → Bool
  -- `File::create` and `set_len`
  pub create_file : String → ℕ → S → Result String (Unit {0}) × S
  pub write_file : String → List ℕ → S → Result String (Unit {0}) × S
  pub read_file : String → S → Result String (List ℕ) × S
  pub remove_file : String → S → S
  pub losetup_find : String → S → Result String Output × S
  pub losetup_detach : String → S → S
  pub cryptsetup : List String → S → Result String Status × S
  -- `open` for writing, and `write_all`
  pub write_device : String → List ℕ → S → Result String (Unit {0}) × S
