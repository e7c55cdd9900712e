-- ===== src/Worker/DiskInfo.antt =====
-- crates/nocap-crypt-worker/src/diskinfo.rs: whether the disk of a path rotates, as Linux tells. A text
-- is its code points.
pub mod Partitions
pub mod Mounts
mod Tests
use nocap_crypt.Base.{
  ℕ, Bool, true, false, ◌&&◌, ◌||◌, not, Option, none, some, List, [], ◌∷◌, ltb, if◌then◌else◌,
}
use nocap_crypt.Base.Bytes.{bytes_eq}
use nocap_crypt.Base.Text.{codes, trim_list}
use nocap_crypt.Base.Utf8.{utf8_len}
use nocap_crypt.Base.Words.{
  split_whitespace, lines, starts_with, strip_prefix, is_nil, all_digits, ends_with_digit,
  trim_end_digits, split_last,
}

pub data DiskType : Type 0 where
  ssd rotational unknown : DiskType

-- `?` on an `Option`
infixl 5 ◌>>?◌
abbrev pub ◌>>?◌ : {A B : Type 0} → Option A → (A → Option B) → Option B
some a >>? f = f a
none >>? f = none

-- The test of the first `if let` of `base_device_name`.
abbrev pub is_partition : List ℕ → List ℕ → Bool
is_partition head tail = ends_with_digit head && not (is_nil tail) && all_digits tail

-- The names of whole disks that may end in a digit.
unfoldable pub keeps_digits : List ℕ → Bool
keeps_digits name =
    starts_with name (codes "nvme")
    || starts_with name (codes "mmcblk")
    || starts_with name (codes "loop")

-- The second half of `base_device_name`.
unfoldable pub without_digits : List ℕ → List ℕ
without_digits name = if keeps_digits name then name else trim_end_digits name

-- `base_device_name`
unfoldable pub base_device_name : List ℕ → List ℕ
base_device_name name = elim (split_last b'p' name) [
  | none ↦ without_digits name
  | some parts ↦ if is_partition parts.0 parts.1 then parts.0 else without_digits name
]

-- The first two words of a line of /proc/mounts: the device and the mount point.
abbrev pub mount_of : List (List ℕ) → Option (List ℕ × List ℕ)
mount_of [] = none
mount_of (device ∷ []) = none
mount_of (device ∷ (mount_point ∷ rest)) = some (device, mount_point)

-- `best.as_ref().is_none_or(|(len, _)| n > *len)`
abbrev pub is_better : ℕ → Option (ℕ × List ℕ) → Bool
is_better n none = true
is_better n (some best) = ltb best.0 n

-- One round of the loop over the mounts.
unfoldable pub update_best : List ℕ → List ℕ × List ℕ → Option (ℕ × List ℕ) → Option (ℕ × List ℕ)
update_best canonical mount best =
    if starts_with canonical mount.1 && is_better (utf8_len mount.1) best
    then some (utf8_len mount.1, mount.0)
    else best

-- The loop; a line of less than two words ends `resolve_block_device`.
unfoldable pub best_mount :
    List ℕ → List (List ℕ) → Option (ℕ × List ℕ) → Option (Option (ℕ × List ℕ))
best_mount canonical [] best = some best
best_mount canonical (line ∷ rest) best = mount_of (split_whitespace line) >>? λ mount.
    best_mount canonical rest (update_best canonical mount best)

-- `resolve_block_device`, from the path that `canonicalize` and `to_str` give and the text of
-- /proc/mounts.
unfoldable pub resolve_block_device : Option (List ℕ) → Option (List ℕ) → Option (List ℕ)
resolve_block_device canonicalized mounts_text = canonicalized >>? λ canonical.
    mounts_text >>? λ mounts. best_mount canonical (lines mounts) none >>? λ best.
    best >>? λ mount. strip_prefix mount.1 (codes "/dev/") >>? λ name. some (base_device_name name)

-- `read_rotational`, from the text of the flag.
unfoldable pub read_rotational : Option (List ℕ) → Option DiskType
read_rotational flag = flag >>? λ content.
    if bytes_eq (trim_list content) (codes "0")
    then some ssd
    else if bytes_eq (trim_list content) (codes "1")
    then some rotational
    else none

-- `disk_type_for_path`; `flag_of` reads the flag of a device.
unfoldable pub disk_type_for_path :
    Option (List ℕ) → Option (List ℕ) → (List ℕ → Option (List ℕ)) → DiskType
disk_type_for_path canonicalized mounts_text flag_of =
    elim (resolve_block_device canonicalized mounts_text >>? λ dev. read_rotational (flag_of dev)) [
      | some disk ↦ disk
      | none ↦ unknown
    ]
