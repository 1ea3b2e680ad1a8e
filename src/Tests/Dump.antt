-- ===== src/Tests/Dump.antt =====
-- A run of the rewrite of a dump line.
use omnect_os_init.Base.{◌≡◌, refl, List, [], ◌∷◌, ok, arith}
use omnect_os_init.Base.Text.{Text, lit, trim_start, is_whitespace, is_ascii_digit, split_once_text}
use omnect_os_init.Mode.Flash.Sfdisk.{parse_field_u64, set_field_u64}
use omnect_os_init.Mode.Flash.Sfdisk.Fields.{parse_field_u64-set_field_u64}

abbrev dump_line : Text
dump_line = lit "/dev/sda7 : start= 2048, size= 100, type=83"

dump_example :
    parse_field_u64 (lit "/dev/sda7 : start= 2048, size= 4096, type=83") (lit "size=") ≡ ok 4096
unfolding lit is_whitespace is_ascii_digit
dump_example =
    parse_field_u64-set_field_u64 dump_line (lit "size=")
      (lit "/dev/sda7 : start= 2048, size= 4096, type=83") 4096 refl (omega arith)
      (unfold split_once_text trim_start in refl) (unfold set_field_u64 in refl)

abbrev dump_lines : List Text
dump_lines = lit "last-lba: 9000" ∷ lit "/dev/sda1 : start= 64, size= 100" ∷ dump_line ∷ []

abbrev rewritten_lines : List Text
rewritten_lines =
    lit "last-lba: 6143"
    ∷ lit "/dev/sda1 : start= 64, size= 100"
    ∷ lit "/dev/sda7 : start= 2048, size= 4096, type=83"
    ∷ []
