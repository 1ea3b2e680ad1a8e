-- ===== src/Mode/Flash/Sfdisk/Lines.antt =====
-- The lines of a dump that the rewrite of src/mode/flash/sfdisk.rs sets, and those that it leaves.
use omnect_os_init.Base.{◌≡◌, ◌≢◌, ℕ, List, some, ok, length, get_elem?, true, ◌*◌}
use omnect_os_init.Base.Text.{Text}
use omnect_os_init.Mode.Flash.Sfdisk.{
  begins, last_lba_field, start_field, new_last_lba, parse_field_u64, find_line, set_line,
  find_partition_line, set_field_u64, sectors_per_kb, size_field,
}
use omnect_os_init.Partition.Layout.{gpt, partition_num_data}

-- The lines with the header of the last sector set.
abbrev HeaderSet : (start sectors : ℕ) → List Text → List Text → Type 0
HeaderSet start sectors ls ls' =
    (j : ℕ) × (header : Text) × (last : ℕ) × (changed : Text) × (find_line (begins last_lba_field)
        ls
      ≡ some (j, header))
    × (new_last_lba start sectors ≡ some last)
    × (set_field_u64 header last_lba_field last ≡ ok changed)
    × (set_line j changed ls ≡ ls')

-- The lines with the size of the data partition set, and the last sector of the table with it.
abbrev pub IsRewriteOf : List Text → (sectors : ℕ) → List Text → Type 0
IsRewriteOf ls sectors ls' =
    (i : ℕ) × (line : Text) × (start : ℕ) × (new : Text) × (find_partition_line ls
        (partition_num_data gpt)
      ≡ some (i, line))
    × (parse_field_u64 line start_field ≡ ok start)
    × (set_field_u64 line size_field sectors ≡ ok new)
    × (j : ℕ) × (header : Text) × (last : ℕ) × (changed : Text) × (get_elem? ls j ≡ some header)
    × (begins last_lba_field header ≡ true)
    × (new_last_lba start sectors ≡ some last)
    × (set_field_u64 header last_lba_field last ≡ ok changed)
    × (j ≢ i)
    × (length ls' ≡ length ls)
    × (get_elem? ls' i ≡ some new)
    × (get_elem? ls' j ≡ some changed)
    × ((k : ℕ) → k ≢ i → k ≢ j → get_elem? ls' k ≡ get_elem? ls k)

abbrev pub IsRewrite : List Text → (data_size_kb : ℕ) → List Text → Type 0
IsRewrite ls data_size_kb ls' = IsRewriteOf ls (data_size_kb * sectors_per_kb) ls'
