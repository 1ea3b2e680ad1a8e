-- ===== src/Bootloader/Packed.antt =====
-- The packed records of src/bootloader/types.rs, as a backend reads them back.
use omnect_os_init.Base.{◌≡◌, refl, ℕ, true, false, not, List, some, ok, all}
use omnect_os_init.Base.Text.{Text, is_empty, is_whitespace, trim}
use omnect_os_init.Base.Text.Digits.{IsI32}
use omnect_os_init.Base.Text.Numbers.{ℤ}
use omnect_os_init.Bootloader.Env.{record_of_text, record_of_value, record_of_stored}
use omnect_os_init.Bootloader.Record.{Applets, encode_fsck_output}
use omnect_os_init.Bootloader.Record.RoundTrip.{
  IsWorking, parse_fsck_text-append, unpack_fsck_text-encode_fsck_output,
}
use omnect_os_init.Partition.Name.{PartitionName}

-- What base64 prints of the packed text of a record: characters other than white space, and at least
-- one.
pub record IsPlain (a : Applets) (w : IsWorking a) : Type 0 where
  pub no-space :
      (b : List ℕ)
      → all (λ c. not (is_whitespace c)) (trim (a.lossy (w.encoded (w.compressed b)))) ≡ true
  pub filled : (b : List ℕ) → is_empty (trim (a.lossy (w.encoded (w.compressed b)))) ≡ false

-- With applets that run and undo each other, a stored record with an exit code that fits an `i32` is
-- read as it was saved.
pub record_of_stored-encode_fsck_output :
    (a : Applets) (p : PartitionName) (code : ℤ) (output : Text)
    → IsWorking a
    → IsI32 code
    → record_of_stored a p (ok (some (encode_fsck_output a code output)))
      ≡ ok (some (record { exit_code = record { bits = code }; output = output }))
unfolding record_of_stored record_of_value record_of_text
record_of_stored-encode_fsck_output a p code output w fits =
    rw (unpack_fsck_text-encode_fsck_output a code output w, record_of_value)
      (rw (parse_fsck_text-append code output fits, record_of_text) refl)
