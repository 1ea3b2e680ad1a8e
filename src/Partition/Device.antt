-- ===== src/Partition/Device.antt =====
-- src/partition/device.rs: the root device, from the names of partitions.
pub mod Suffix
use omnect_os_init.Base.{
  ℕ, Bool, true, false, List, [], ◌∷◌, ◌++◌, Option, none, some, if◌then◌else◌, Result, ok, err,
  length, ◌==◌, ◌||◌,
}
use omnect_os_init.Base.FilePath.{file_name, path_join}
use omnect_os_init.Base.Text.{
  Text, lit, is_ascii_digit, is_empty, ends_with, strip_suffix, trim_end,
}
use omnect_os_init.Base.Text.Numbers.{decimal}
use omnect_os_init.Error.{PartitionError, device_detection}

pub record RootDevice : Type 0 where
  pub base : Text
  pub partition_sep : Text
  pub root_partition : Text

unfoldable pub partition_sep_for_name : Text → Text
unfolding lit ends_with is_ascii_digit
partition_sep_for_name disk = if ends_with is_ascii_digit disk then lit "p" else []

-- `partition_path`
unfoldable pub partition_path : (disk sep : Text) → ℕ → Text
unfolding decimal
partition_path disk sep num = disk ++ (sep ++ decimal num)

-- The disk before a `p`, if the kernel would have put that `p` there.
base_of : (stem : Text) → Option Text → Text
unfolding ends_with is_ascii_digit
base_of stem none = stem
base_of stem (some disk) = if ends_with is_ascii_digit disk then disk else stem

unfoldable pub split_partition_suffix : Text → Result PartitionError (Text × Text)
unfolding partition_sep_for_name base_of trim_end strip_suffix lit
split_partition_suffix name =
    let stem = trim_end is_ascii_digit name in
    if is_empty stem || (length stem == length name)
    then err (device_detection (lit "could not derive base device from: " ++ name))
    else (let base = base_of stem (strip_suffix b'p' stem) in
        ok (base, partition_sep_for_name base))

abbrev device_of : Text → Text × Text → RootDevice
device_of root_partition (base_name, sep) = record {
  base = path_join (lit "/dev") base_name;
  partition_sep = sep;
  root_partition = root_partition;
}

abbrev with_device :
    Result PartitionError (Text × Text) → (Text × Text → Text) → Result PartitionError RootDevice
with_device (err e) root = err e
with_device (ok parts) root = ok (device_of (root parts) parts)

blkid_device : Text → ℕ → Option Text → Result PartitionError RootDevice
unfolding split_partition_suffix
blkid_device boot_part num none = err (device_detection (lit "invalid blkid output: " ++ boot_part))
blkid_device boot_part num (some name) =
    with_device (split_partition_suffix name)
      λ (base_name, sep). lit "/dev/" ++ (base_name ++ (sep ++ decimal num))

unfoldable pub root_device_from_blkid : Text → ℕ → Result PartitionError RootDevice
unfolding blkid_device file_name
root_device_from_blkid boot_part num = blkid_device boot_part num (file_name boot_part)

path_device : Text → Option Text → Result PartitionError RootDevice
unfolding split_partition_suffix
path_device path none = err (device_detection (lit "invalid device path: " ++ path))
path_device path (some name) = with_device (split_partition_suffix name) (λ _. path)

unfoldable pub parse_device_path : Text → Result PartitionError RootDevice
unfolding path_device file_name
parse_device_path path = path_device path (file_name path)
