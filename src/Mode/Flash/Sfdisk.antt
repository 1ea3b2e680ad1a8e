-- ===== src/Mode/Flash/Sfdisk.antt =====
-- src/mode/flash/sfdisk.rs: the rewrite of a partition-table dump. The kind of the table is that of
-- the image. `apply`, which writes to a running program, is not modelled.
pub mod Fields
pub mod DataLine
pub mod Lines
use omnect_os_init.Base.{
  ℕ, zero, suc, Bool, true, false, not, List, [], ◌∷◌, ◌++◌, Option, none, some, if◌then◌else◌,
  Result, ok, err, ok_or, map_err, ◌>>=◌, ◌>>◌, to_option, ◌==◌, leb, ◌+◌, ◌-◌, ◌*◌,
}
use omnect_os_init.Base.Text.{
  Text, lit, text_eq, is_empty, is_whitespace, is_ascii_digit, trim, trim_start, starts_with,
  split_once_text, take_while, split_whitespace, join,
}
use omnect_os_init.Base.Text.Numbers.{parse_uint, decimal, u64_max}
use omnect_os_init.Bootloader.Grub.{lines}
use omnect_os_init.Bootloader.Uboot.{Output, is_success}
use omnect_os_init.Config.BuildConstant.{data_size}
use omnect_os_init.Error.{
  IoError, FlashError, malformed_dump, invalid_build_constant, partition_table, uuid_failed,
  PartitionTableOperation,
}
use omnect_os_init.Filesystem.System.{System}
use omnect_os_init.Partition.Layout.{
  TableKind, gpt, dos, partition_num_extended, partition_num_data, partition_suffix,
}

-- `ok_or`, with the error first.
abbrev pub or_error : {E A : Type 0} → E → Option A → Result E A
or_error e o = ok_or o e

abbrev pub sector_size : ℕ
sector_size = 512

abbrev pub sectors_per_kb : ℕ
sectors_per_kb = 2

unfoldable pub last_lba_field : Text
unfolding lit
last_lba_field = lit "last-lba:"

unfoldable pub start_field : Text
unfolding lit
start_field = lit "start="

unfoldable pub size_field : Text
unfolding lit
size_field = lit "size="

-- The value behind a field, up to the next comma.
unfoldable pub field_value : (line field : Text) → Option Text
unfolding split_once_text take_while trim
field_value line field = elim (split_once_text field line) [
  | none ↦ none
  | some (before, after) ↦ some (trim (take_while (λ c. not (c == b',')) after))
]

unfoldable pub unparsable : (line field : Text) → Text
unfolding lit
unparsable line field = lit "unparsable " ++ (field ++ (lit " field: " ++ line))

number_of : Option Text → Option ℕ
unfolding parse_uint
number_of none = none
number_of (some v) = to_option (parse_uint u64_max v)

unfoldable pub parse_field_u64 : (line field : Text) → Result Text ℕ
unfolding field_value number_of unparsable
parse_field_u64 line field = or_error (unparsable line field) (number_of (field_value line field))

-- The number behind the spaces, replaced.
unfoldable pub set_behind : (line field : Text) → ℕ → Text × Text → Result Text Text
unfolding take_while trim_start decimal unparsable
set_behind line field value (before, rest) =
    let digits = trim_start is_whitespace rest in
    if is_empty (take_while is_ascii_digit digits)
    then err (unparsable line field)
    else ok (
        before
        ++ (field
            ++ (take_while is_whitespace rest
                ++ (decimal value ++ trim_start is_ascii_digit digits))))

unfoldable pub set_field_u64 : (line field : Text) → ℕ → Result Text Text
unfolding split_once_text set_behind
set_field_u64 line field value = elim (split_once_text field line) [
  | none ↦ err (lit "missing " ++ (field ++ (lit " field: " ++ line)))
  | some parts ↦ set_behind line field value parts
]

unfoldable pub partition_number : Text → Option ℕ
unfolding split_whitespace starts_with partition_suffix lit
partition_number line = elim (split_whitespace line) [
  | [] ↦ none
  | device ∷ _ ↦ if starts_with (lit "/dev/") device then partition_suffix device else none
]

-- The index of the first line that `p` holds of, with the line.
unfoldable pub find_line : (Text → Bool) → List Text → Option (ℕ × Text)
find_line p [] = none
find_line p (line ∷ rest) =
    let below = find_line p rest in
    if p line
    then some (0, line)
    else elim below [ none ↦ none | some (i, found) ↦ some (suc i, found) ]

-- `lines[i] = line`
unfoldable pub set_line : ℕ → Text → List Text → List Text
set_line i line [] = []
set_line zero line (old ∷ rest) = line ∷ rest
set_line (suc i) line (old ∷ rest) = old ∷ set_line i line rest

abbrev is_number : Option ℕ → ℕ → Bool
is_number none num = false
is_number (some n) num = n == num

unfoldable pub find_partition_line : List Text → ℕ → Option (ℕ × Text)
unfolding find_line partition_number
find_partition_line ls num = find_line (λ line. is_number (partition_number line) num) ls

unfoldable pub begins : Text → Text → Bool
unfolding trim_start starts_with
begins field line = starts_with field (trim_start is_whitespace line)

unfoldable pub checked : ℕ → Option ℕ
checked n = if leb n u64_max then some n else none

unfoldable pub checked_sub : ℕ → ℕ → Option ℕ
checked_sub a b = if leb b a then some (a - b) else none

-- The last sector of a GPT, or the size of the extended partition of a DOS table.
unfoldable pub new_last_lba : (data_start data_sectors : ℕ) → Option ℕ
unfolding checked checked_sub
new_last_lba data_start data_sectors = elim (checked (data_start + data_sectors)) [
  | none ↦ none
  | some end ↦ checked_sub end 1
]

unfoldable pub invalid_end : (data_start data_sectors : ℕ) → Text → Text
unfolding decimal
invalid_end data_start data_sectors what =
    lit "data partition of "
    ++ (decimal data_sectors
        ++ (lit " sectors starting at "
            ++ (decimal data_start ++ (lit " computes an invalid " ++ what))))

unfoldable pub rewrite_layout_specific :
    TableKind → (data_start data_sectors : ℕ) → List Text → Result Text (List Text)
unfolding find_line begins new_last_lba set_field_u64 set_line find_partition_line parse_field_u64
    checked checked_sub invalid_end last_lba_field start_field size_field
rewrite_layout_specific gpt data_start data_sectors ls = do
  (i, line) ←
      or_error (lit "missing 'last-lba:' header in dump") (find_line (begins last_lba_field) ls)
  last ←
      or_error (invalid_end data_start data_sectors (lit "last-lba"))
        (new_last_lba data_start data_sectors)
  new ← set_field_u64 line last_lba_field last
  ok (set_line i new ls)
rewrite_layout_specific dos data_start data_sectors ls = do
  (i, line) ←
      or_error
        (lit "no partition "
          ++ (decimal partition_num_extended ++ lit " (the extended container) found in dump"))
        (find_partition_line ls partition_num_extended)
  extended_start ← parse_field_u64 line start_field
  before ←
      or_error (lit "extended container starts after the data partition: " ++ line)
        (checked_sub data_start extended_start)
  size ←
      or_error (invalid_end data_start data_sectors (lit "extended-container size"))
        (checked (before + data_sectors))
  new ← set_field_u64 line size_field size
  ok (set_line i new ls)

unfoldable pub verify_sector_scale : Text → Result Text (Unit {0})
unfolding find_line begins field_value parse_field_u64 lines text_eq
verify_sector_scale dump = do
  (i, unit) ←
      or_error (lit "missing 'unit:' declaration in dump")
        (find_line (begins (lit "unit:")) (lines dump))
  value ← or_error (lit "unparsable 'unit:' line: " ++ unit) (field_value unit (lit "unit:"))
  (if text_eq value (lit "sectors") then ok tt else err (lit "dump is not in sectors: " ++ unit))
  (j, size) ←
      or_error (lit "missing 'sector-size:' declaration in dump")
        (find_line (begins (lit "sector-size:")) (lines dump))
  n ← parse_field_u64 size (lit "sector-size:")
  (if n == sector_size
      then ok tt
      else err (lit "unsupported sector size (only 512-byte sectors are supported): " ++ size))

unfoldable pub unusable_data_size : ℕ → Text → FlashError
unfolding decimal
unusable_data_size kb what =
    invalid_build_constant data_size (decimal kb ++ (lit " KB does not fit " ++ what))

-- The lines of the dump, rewritten.
unfoldable pub rewrite_lines : TableKind → Text → List Text → ℕ → Result FlashError (List Text)
unfolding find_partition_line parse_field_u64 checked unusable_data_size set_field_u64 set_line
    rewrite_layout_specific
rewrite_lines kind device ls data_size_kb = do
  (i, line) ←
      or_error
        (malformed_dump device (
          lit "no partition "
          ++ (decimal (partition_num_data kind) ++ lit " (the data partition) found in dump")))
        (find_partition_line ls (partition_num_data kind))
  data_start ← map_err (malformed_dump device) (parse_field_u64 line start_field)
  data_sectors ←
      or_error (unusable_data_size data_size_kb (lit "a sector count"))
        (checked (data_size_kb * sectors_per_kb))
  _ ←
      or_error (unusable_data_size data_size_kb (lit "a byte count"))
        (checked (data_sectors * sector_size))
  new ← map_err (malformed_dump device) (set_field_u64 line size_field data_sectors)
  map_err (malformed_dump device)
      (rewrite_layout_specific kind data_start data_sectors (set_line i new ls))

unfoldable pub rewrite_dump : TableKind → Text → Text → ℕ → Result FlashError Text
unfolding verify_sector_scale lines rewrite_lines join
rewrite_dump kind device dump data_size_kb = do
  map_err (malformed_dump device) (verify_sector_scale dump)
  ls ← rewrite_lines kind device (lines dump) data_size_kb
  ok (join (lit "\n") ls ++ lit "\n")
