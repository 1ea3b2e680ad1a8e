-- ===== src/Partition/Layout.antt =====
-- src/partition/layout.rs: the partitions of a root device. `PartitionName` is in Partition/Name.
pub mod Numbers
pub mod Distinct
use omnect_os_init.Base.{
  ℕ, Bool, true, false, List, [], ◌∷◌, ◌++◌, Option, none, some, if◌then◌else◌, Result, ok, err,
  ◌==◌, to_option, ◌>>=◌,
}
use omnect_os_init.Base.Dict.{Dict, lookup, insert}
use omnect_os_init.Base.FilePath.{file_name}
use omnect_os_init.Base.Text.{Text, is_ascii_digit}
use omnect_os_init.Base.Text.Numbers.{parse_uint, u32_max}
use omnect_os_init.Error.{PartitionError, unknown_root_partition}
use omnect_os_init.Partition.Device.{RootDevice, partition_path}
use omnect_os_init.Partition.Name.{
  PartitionName, boot, root_a, root_b, root_current, factory, cert, etc, data_part, extended,
  name_equality,
}

-- The features `gpt` and `dos`; build.rs wants exactly one.
pub data TableKind : Type 0 where
  gpt dos : TableKind

abbrev pub partition_num_boot : ℕ
partition_num_boot = 1

abbrev pub partition_num_root_a : ℕ
partition_num_root_a = 2

abbrev pub partition_num_root_b : ℕ
partition_num_root_b = 3

abbrev pub partition_num_extended : ℕ
partition_num_extended = 4

abbrev pub partition_num_factory : TableKind → ℕ
partition_num_factory gpt = 4
partition_num_factory dos = 5

abbrev pub partition_num_cert : TableKind → ℕ
partition_num_cert gpt = 5
partition_num_cert dos = 6

abbrev pub partition_num_etc : TableKind → ℕ
partition_num_etc gpt = 6
partition_num_etc dos = 7

abbrev pub partition_num_data : TableKind → ℕ
partition_num_data gpt = 7
partition_num_data dos = 8

-- The text after the last character that is no digit.
digits_after : Text → Text → Text
unfolding is_ascii_digit
digits_after run [] = run
digits_after run (c ∷ s) =
    if is_ascii_digit c then digits_after (run ++ c ∷ []) s else digits_after [] s

unfoldable pub partition_suffix : Text → Option ℕ
unfolding digits_after parse_uint file_name
partition_suffix path = elim (file_name path) [
  | none ↦ none
  | some s ↦ to_option (parse_uint u32_max (digits_after [] s))
]

abbrev pub device_path : RootDevice → ℕ → Text
device_path device num = partition_path device.base device.partition_sep num

-- The number of the current root: only rootA and rootB are known.
unfoldable pub current_number : Option ℕ → Option ℕ
current_number none = none
current_number (some n) =
    if n == partition_num_root_a
    then some partition_num_root_a
    else if n == partition_num_root_b
    then some partition_num_root_b
    else none

with_extended : TableKind → RootDevice → Dict PartitionName Text → Dict PartitionName Text
unfolding partition_path insert
with_extended gpt device map = map
with_extended dos device map = insert extended (device_path device partition_num_extended) map

full_map : TableKind → RootDevice → ℕ → Dict PartitionName Text
unfolding with_extended partition_path insert
full_map kind device n =
    let at = device_path device in
    let roots =
      insert root_b (at partition_num_root_b)
        (insert root_a (at partition_num_root_a) (insert boot (at partition_num_boot) [])) in
    insert data_part (at (partition_num_data kind)) (
      insert etc (at (partition_num_etc kind)) (
        insert cert (at (partition_num_cert kind)) (
          insert factory (at (partition_num_factory kind))
            (with_extended kind device (insert root_current (at n) roots)))))

map_for : TableKind → RootDevice → Option ℕ → Result PartitionError (Dict PartitionName Text)
unfolding full_map
map_for kind device none = err (unknown_root_partition device.root_partition)
map_for kind device (some n) = ok (full_map kind device n)

unfoldable pub build_partition_map :
    TableKind → RootDevice → Result PartitionError (Dict PartitionName Text)
unfolding map_for current_number partition_suffix
build_partition_map kind device =
    map_for kind device (current_number (partition_suffix device.root_partition))

pub record PartitionLayout : Type 0 where
  pub partitions : Dict PartitionName Text
  pub device : RootDevice

-- `PartitionLayout::new`
unfoldable pub new_layout : TableKind → RootDevice → Result PartitionError PartitionLayout
unfolding build_partition_map
new_layout kind device =
    build_partition_map kind device >>= λ map. ok (record { partitions = map; device = device })

-- `is_root_a`
unfoldable pub is_root_a : PartitionLayout → Bool
unfolding partition_suffix
is_root_a layout = elim (partition_suffix layout.device.root_partition) [
  | none ↦ false
  | some n ↦ n == partition_num_root_a
]

abbrev or_path : Option Text → Text → Text
or_path none path = path
or_path (some found) path = found

-- `PartitionLayout::root_current`
unfoldable pub layout_root_current : PartitionLayout → Text
unfolding is_root_a lookup
layout_root_current layout =
    if is_root_a layout
    then or_path (lookup root_a layout.partitions) (device_path layout.device partition_num_root_a)
    else or_path (lookup root_b layout.partitions) (device_path layout.device partition_num_root_b)
