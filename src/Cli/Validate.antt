-- ===== src/Cli/Validate.antt =====
-- crates/nocap-crypt-cli/src/cmd/validate.rs: the structural check of a volume, and with a key the
-- attempt to decrypt its first sectors.
pub mod Ends
pub mod Accepts
mod Tests
use Prim.Native.String.{◌++◌ as ◌<>◌}
use nocap_crypt.Base.{
  ℕ, ◌+◌, ◌*◌, ◌/◌, ◌%◌, min, Bool, true, false, ◌&&◌, Option, none, some, List, [], ◌∷◌, length,
  take, drop, String, ltb, leb, ◌==◌, if◌then◌else◌,
}
use nocap_crypt.Base.Bytes.{bytes_eq}
use nocap_crypt.Base.Result.{Result, ok, err, Fault, failed, panicked}
use nocap_crypt.Base.Text.{show_nat}
use nocap_crypt.Core.CipherSpec.{CipherSpec, as_str}
use nocap_crypt.Core.Iv.{sector_size}
use nocap_crypt.Core.Primitives.{Primitives}
use nocap_crypt.Core.Engine.{SectorEngine, new, decrypt_range}
use nocap_crypt.Blockio.SectorIo.{IoError, Os, SectorFile, read_at_exact}
use nocap_crypt.Blockio.Open.{open_read}
use nocap_crypt.Luks.Structural.{StructuralReport, structural_passes, validate_plain_structural}
use nocap_crypt.Keymgmt.Format.{Decoders}
use nocap_crypt.Cli.ExitCode.{
  ExitCode, success, io, key_validation, luks_compat, unsupported_cipher,
}
use nocap_crypt.Cli.KeyLoad.{CipherArg, KeyFormatArg, load_key_file, resolve_cipher_spec}
use nocap_crypt.Cli.Console.{
  Console, Ran, end, fail, say, tell, spec_error_text, load_error_text, engine_error_text,
}
use nocap_crypt.Ui.Event.{message}
use nocap_crypt.Ui.Narrate.{explain_headerless_plain}

pub record ValidateArgs : Type 0 where
  pub input : String
  pub cipher : CipherArg
  pub key_size : Option ℕ
  pub key_file : Option String
  pub key_format : KeyFormatArg

-- What the system answers: the size of the input, what reading the key file and opening the input
-- give, and the `Display` of an I/O error.
pub record Answers : Type 0 where
  pub stat : Result ℕ ℕ
  pub key_read : Result ℕ (List ℕ)
  pub opens : Bool → Result ℕ (List ℕ)
  pub io_text : IoError → String

-- `u16::from_le_bytes` of the two bytes at 0x438.
abbrev pub ext_magic : List ℕ → Bool
ext_magic [] = false
ext_magic (lo ∷ []) = false
ext_magic (lo ∷ (hi ∷ rest)) = lo + 256 * hi == 61267

-- `detect_fs_magic`; "hsqs" is 104, 115, 113, 115.
unfoldable pub detect_fs_magic : List ℕ → Option String
detect_fs_magic bytes =
    if leb 4 (length bytes) && bytes_eq (take 4 bytes) (104 ∷ 115 ∷ 113 ∷ 115 ∷ [])
    then some "squashfs"
    else if leb 1082 (length bytes) && ext_magic (drop 1080 bytes)
    then some "ext2/ext3/ext4"
    else none

-- The note on the size.
unfoldable pub size_note : StructuralReport → ℕ → String
size_note structural file_size =
    if structural.size_is_sector_multiple
    then "file size "
      <> show_nat file_size
      <> " bytes is a whole multiple of the "
      <> show_nat sector_size
      <> "-byte sector size (required: headerless plain dm-crypt has no header to record a "
      <> "partial trailing sector, so the file itself has to land exactly on a sector boundary)"
    else "file size "
      <> show_nat file_size
      <> " bytes is NOT a whole multiple of the "
      <> show_nat sector_size
      <> "-byte sector size ("
      <> show_nat (file_size % sector_size)
      <> " leftover byte"
      <> (if file_size % sector_size == 1 then "" else "s")
      <> ") — this can't be a valid plain dm-crypt volume"

-- The note on the spec.
unfoldable pub cipher_note : StructuralReport → String → String
cipher_note structural spec_str =
    if structural.cipher_spec_round_trips
    then "cipher spec \"" <> spec_str
      <> "\" is recognized and round-trips through the same parser this tool would use to mount "
      <> "it — matches what real cryptsetup accepts"
    else "cipher spec \"" <> spec_str
      <> "\" was not recognized by the plain dm-crypt cipher-spec parser"

module _ (c : Console) (p : Primitives) (os : Os) (d : Decoders) where
  -- The `match detect_fs_magic(&head)`.
  unfoldable pub magic_report : Option String → Ran c
  magic_report (some fs) =
      say c
        (message (
          "round-trip check: detected " <> fs
          <> " superblock magic — key+cipher+IV scheme consistent"))
        (end c success)
  magic_report none =
      fail c luks_compat "round-trip check: no known filesystem magic detected at expected offsets"

  -- From `open_read` on; `none` is the panic of `decrypt_range`.
  unfoldable pub check_head : Answers → SectorEngine → ℕ → Option (Ran c)
  check_head sys engine head_sectors = elim (open_read sys.opens) [
    | err e ↦ some (fail c io (c.os_text e))
    | ok sf ↦ elim (read_at_exact os sf 0 (head_sectors * sector_size)) [
      | err e ↦ some (fail c io (sys.io_text e))
      | ok head ↦ elim (decrypt_range p engine 0 head) [
        | none ↦ none
        | some plain ↦ some (magic_report (detect_fs_magic plain))
      ]
    ]
  ]

  -- What follows the structural check if a key file is given.
  unfoldable pub check_key : ValidateArgs → Answers → CipherSpec → ℕ → Option (Ran c)
  check_key args sys spec file_size = elim (load_key_file d sys.key_read args.key_format) [
    | err e ↦ some (fail c io (load_error_text c e))
    | ok key ↦ elim (new p spec key) [
      | err panicked ↦ none
      | err (failed e) ↦ some (fail c key_validation (engine_error_text c e))
      | ok engine ↦
          let head_sectors = min (file_size / sector_size) 8 in
          if head_sectors == 0
          then some (
              say c (message "round-trip check skipped: file too short for even one sector")
                (end c success))
          else check_head sys engine head_sectors
    ]
  ]

  -- What follows the message of the structural check.
  unfoldable pub after_structural :
      ValidateArgs → Answers → CipherSpec → ℕ → StructuralReport → Option (Ran c)
  after_structural args sys spec file_size structural =
      if structural_passes structural
      then elim args.key_file [
        | none ↦ some (end c success)
        | some path ↦ check_key args sys spec file_size
      ]
      else some (fail c luks_compat "structural validation failed")

  -- An event before the rest of a command that may panic.
  unfoldable pub said : (Ran c → Ran c) → Option (Ran c) → Option (Ran c)
  said before none = none
  said before (some r) = some (before r)

  -- From the size of the input on.
  unfoldable pub after_stat : ValidateArgs → Answers → Result ℕ ℕ → Option (Ran c)
  after_stat args sys (err e) = some (fail c io ("stat " <> args.input <> ": " <> c.os_text e))
  after_stat args sys (ok file_size) = elim (resolve_cipher_spec args.cipher args.key_size) [
    | err e ↦ some (fail c unsupported_cipher (spec_error_text c e))
    | ok spec ↦
        let structural = validate_plain_structural file_size (as_str spec) in
        said
          (say c (
            message (
              "structural check: "
              <> size_note structural file_size
              <> "; "
              <> cipher_note structural (as_str spec))))
          (after_structural args sys spec file_size structural)
  ]

  -- `validate::run`
  unfoldable pub run_validate : ValidateArgs → Answers → Option (Ran c)
  run_validate args sys = said (tell c explain_headerless_plain) (after_stat args sys sys.stat)
