-- ===== src/Tests/Disk.antt =====
-- Runs of the partition layout and of the block map.
use omnect_os_init.Base.{◌≡◌, refl, ℕ, true, List, [], ◌∷◌, some, ok, err, ◌⊎◌, arith}
use omnect_os_init.Base.Dict.{Dict, lookup}
use omnect_os_init.Base.Text.{Text, lit, ends_with, trim_end, trim_start, is_whitespace}
use omnect_os_init.Error.{unknown_root_partition}
use omnect_os_init.Mode.Bmap.{ByteRange, MappedRange, Bmap, unmapped}
use omnect_os_init.Mode.Bmap.Gaps.{covers, unmapped-covers}
use omnect_os_init.Mode.Bmap.Parse.{XmlBmap, Libraries, parse}
use omnect_os_init.Mode.Bmap.Parse.Checked.{IsChecked, parse-IsChecked}
use omnect_os_init.Partition.Device.{
  RootDevice, partition_path, partition_sep_for_name, split_partition_suffix,
}
use omnect_os_init.Partition.Device.Suffix.{
  split_partition_suffix-partition_path, not_p-EndsInDigitAndP,
}
use omnect_os_init.Partition.Layout.{
  gpt, build_partition_map, PartitionLayout, new_layout, layout_root_current,
}
use omnect_os_init.Partition.Layout.Distinct.{build_partition_map-distinct}
use omnect_os_init.Partition.Layout.Numbers.{
  IsRoot, Describes, build_partition_map-Describes, new_layout-root_current,
}
use omnect_os_init.Partition.Name.{
  PartitionName, root_current, factory, name_equality, name_discrete,
}

-- `mmcblk1p2` is partition 2 of `mmcblk1`.
split_example :
    split_partition_suffix
      (partition_path (lit "mmcblk1") (partition_sep_for_name (lit "mmcblk1")) 2)
    ≡ ok (lit "mmcblk1", partition_sep_for_name (lit "mmcblk1"))
split_example =
    split_partition_suffix-partition_path (lit "mmcblk1") 2 (unfold lit in refl)
      (not_p-EndsInDigitAndP (lit "mmcblk1") (unfold lit ends_with in refl))

abbrev sda : RootDevice
sda = record { base = lit "/dev/sda"; partition_sep = []; root_partition = lit "/dev/sda2" }

numbers_example :
    ((n : ℕ) × (map : Dict PartitionName Text) × IsRoot sda n
      × (build_partition_map gpt sda ≡ ok map)
      × Describes gpt sda n map)
    ⊎ ((build_partition_map gpt sda ≡ err (unknown_root_partition sda.root_partition))
        × ((n : ℕ) → ¬ IsRoot sda n))
numbers_example = build_partition_map-Describes gpt sda

abbrev found_map : Dict PartitionName Text
found_map = elim (build_partition_map gpt sda) [ ok map ↦ map | err e ↦ [] ]

distinct_example : factory ≡ factory
unfolding build_partition_map
distinct_example =
    build_partition_map-distinct gpt sda found_map factory factory (lit "/dev/sda4")
      (unfold lit in refl) (λ h. cc) (λ h. cc) (unfold lookup name_discrete lit in refl)
      (unfold lookup name_discrete lit in refl)

abbrev sda_layout : PartitionLayout
sda_layout = record { partitions = found_map; device = sda }

current_example : lookup root_current sda_layout.partitions ≡ some (layout_root_current sda_layout)
unfolding build_partition_map new_layout
current_example = new_layout-root_current gpt sda sda_layout (unfold lit in refl)

abbrev two_ranges : List MappedRange
two_ranges =
    record { bytes = record { offset = 0; len = 4096 }; sha256 = [] }
    ∷ record { bytes = record { offset = 8192; len = 4096 }; sha256 = [] }
    ∷ []

abbrev two_ranges_map : Bmap
two_ranges_map = record { image_size = 16384; ranges = two_ranges }

abbrev area : ByteRange
area = record { offset = 2048; len = 8192 }

-- The byte 5000 of the area is in the gap.
unmapped_example : covers 5000 (unmapped two_ranges_map area) ≡ true
unmapped_example = unmapped-covers two_ranges_map area 5000 (omega arith, (omega arith, tt))

abbrev xml : XmlBmap
xml = record {
  version = lit "2.0";
  image_size = lit "10000";
  block_size = lit "4096";
  blocks_count = lit "3";
  mapped_blocks_count = lit "2";
  checksum_type = lit "sha256";
  file_checksum = lit "00";
  ranges =
      record { chksum = lit "00"; blocks = lit "0" }
      ∷ record { chksum = lit "00"; blocks = lit "2" }
      ∷ [];
}

-- A parser that finds this map in every text, and a digest that every checksum matches.
abbrev libraries : Libraries
libraries = record { from_str = λ t. ok xml; digest = λ t. []; sha256_from_hex = λ t. some [] }

abbrev parsed : Bmap
parsed = record {
  image_size = 10000;
  ranges =
      record { bytes = record { offset = 0; len = 4096 }; sha256 = [] }
      ∷ record { bytes = record { offset = 8192; len = 1808 }; sha256 = [] }
      ∷ [];
}

parse_example : IsChecked parsed
unfolding trim_end trim_start is_whitespace
parse_example = parse-IsChecked libraries [] parsed (unfold parse lit in refl)
