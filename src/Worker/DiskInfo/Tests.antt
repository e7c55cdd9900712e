-- ===== src/Worker/DiskInfo/Tests.antt =====
-- Disks and mounts at work.
use nocap_crypt.Base.{ℕ, ◌≡◌, refl, true, none, some, List}
use nocap_crypt.Base.Text.{codes, trim_list}
use nocap_crypt.Base.Words.{
  split_whitespace, lines, starts_with, strip_prefix, all_digits, ends_with_digit, trim_end_digits,
  split_last,
}
use nocap_crypt.Worker.DiskInfo.{
  rotational, keeps_digits, without_digits, base_device_name, best_mount, update_best,
  resolve_block_device, read_rotational, disk_type_for_path,
}
use nocap_crypt.Worker.DiskInfo.Partitions.{
  other, empty, IsPartitionOf, joined, base_device_name-IsPartitionOf,
}
use nocap_crypt.Worker.DiskInfo.Mounts.{Among, NoLonger, best_mount_longest}

one_digit : all_digits (codes "1") ≡ true
unfolding all_digits
one_digit = refl

sda1 : IsPartitionOf (codes "sda") (codes "sda1")
unfolding keeps_digits starts_with
sda1 =
    joined (codes "1") one_digit (other b's' _ refl (other b'd' _ refl (other b'a' _ refl empty)))
      refl

base_device_name-IsPartitionOf_example : base_device_name (codes "sda1") ≡ codes "sda"
base_device_name-IsPartitionOf_example = base_device_name-IsPartitionOf (codes "sda") sda1

nvme : base_device_name (codes "nvme0n1p3") ≡ codes "nvme0n1"
unfolding base_device_name split_last ends_with_digit all_digits
nvme = refl

-- A root and a data disk.
abbrev mounts : List ℕ
mounts = codes "/dev/sda1 / ext4\n/dev/sdb2 /data xfs\n"

abbrev path : List ℕ
path = codes "/data/disk.img"

chosen : best_mount path (lines mounts) none ≡ some (some (5, codes "/dev/sdb2"))
unfolding best_mount update_best lines split_whitespace starts_with
chosen = refl

best_mount_longest_example :
    Among path 5 (codes "/dev/sdb2") (lines mounts) × NoLonger path 5 (lines mounts)
best_mount_longest_example = best_mount_longest path (lines mounts) chosen

-- The prefix is one of the text: a path beside the mount point is taken to be below it.
beside : resolve_block_device (some (codes "/database/disk.img")) (some mounts) ≡ some (codes "sdb")
unfolding resolve_block_device best_mount update_best lines split_whitespace starts_with
    strip_prefix base_device_name without_digits keeps_digits split_last trim_end_digits
beside = refl

spinning : disk_type_for_path (some path) (some mounts) (λ dev. some (codes "1\n")) ≡ rotational
unfolding disk_type_for_path read_rotational trim_list resolve_block_device best_mount update_best
    lines split_whitespace starts_with strip_prefix base_device_name without_digits keeps_digits
    split_last trim_end_digits
spinning = refl
