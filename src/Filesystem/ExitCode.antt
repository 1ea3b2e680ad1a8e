-- ===== src/Filesystem/ExitCode.antt =====
-- `FsckExitCode` of src/filesystem/fsck.rs: an `i32` that fsck(8) fills as a bit mask.
use omnect_os_init.Base.{
  ℕ, ◌/◌, ◌%◌, Bool, true, false, ◌||◌, List, [], ◌∷◌, ◌++◌, ◌==◌, if◌then◌else◌,
}
use omnect_os_init.Base.{Option, none, some}
use omnect_os_init.Base.Text.{Text, lit, join}
use omnect_os_init.Base.Text.Numbers.{ℤ, pos, negsuc, decimal_ℤ}

pub record FsckExitCode : Type 0 where
  pub bits : ℤ

abbrev pub code_ok : FsckExitCode
code_ok = record { bits = pos 0 }

abbrev pub code_corrected : FsckExitCode
code_corrected = record { bits = pos 1 }

abbrev pub code_operational_error : FsckExitCode
code_operational_error = record { bits = pos 8 }

abbrev pub code_unknown : FsckExitCode
code_unknown = record { bits = negsuc 0 }

-- `value & mask != 0` in two's complement, where `mask` is a power of two.
unfoldable pub has_mask : ℕ → ℤ → Bool
has_mask mask (pos n) = n / mask % 2 == 1
has_mask mask (negsuc n) = n / mask % 2 == 0

same_bits : ℤ → ℤ → Bool
same_bits (pos n) (pos m) = n == m
same_bits (negsuc n) (negsuc m) = n == m
same_bits _ _ = false

unfoldable pub code_eq : FsckExitCode → FsckExitCode → Bool
unfolding same_bits
code_eq c d = same_bits c.bits d.bits

module _ (c : FsckExitCode) where
  unfoldable pub is_clean : Bool
  unfolding same_bits
  is_clean = same_bits c.bits (pos 0)

  unfoldable pub has_corrected_bit : Bool
  unfolding has_mask
  has_corrected_bit = has_mask 1 c.bits

  unfoldable pub is_reboot_required : Bool
  unfolding has_mask
  is_reboot_required = has_mask 2 c.bits

  unfoldable pub has_uncorrected_errors : Bool
  unfolding has_mask
  has_uncorrected_errors = has_mask 4 c.bits

  unfoldable pub has_operational_error : Bool
  unfolding has_mask
  has_operational_error = has_mask 8 c.bits

  unfoldable pub is_usage_error : Bool
  unfolding has_mask
  is_usage_error = has_mask 16 c.bits

  unfoldable pub is_cancelled : Bool
  unfolding has_mask
  is_cancelled = has_mask 32 c.bits

  unfoldable pub is_library_error : Bool
  unfolding has_mask
  is_library_error = has_mask 128 c.bits

  unfoldable pub is_mount_safe : Bool
  unfolding code_eq
  is_mount_safe = code_eq c code_ok || code_eq c code_corrected

-- `From<Option<i32>>`: no code means that a signal killed the process.
unfoldable pub code_from_status : Option ℤ → FsckExitCode
code_from_status none = code_operational_error
code_from_status (some n) = record { bits = n }

push_if : Bool → Text → List Text → List Text
push_if true part parts = part ∷ parts
push_if false part parts = parts

code_parts : FsckExitCode → List Text
unfolding push_if has_corrected_bit is_reboot_required has_uncorrected_errors has_operational_error
    is_usage_error is_cancelled is_library_error lit
code_parts c = push_if (has_corrected_bit c) (lit "errors corrected") (
    push_if (is_reboot_required c) (lit "reboot required") (
      push_if (has_uncorrected_errors c) (lit "uncorrected errors") (
        push_if (has_operational_error c) (lit "operational error") (
          push_if (is_usage_error c) (lit "usage error") (
            push_if (is_cancelled c) (lit "cancelled")
              (push_if (is_library_error c) (lit "library error") []))))))

shown_parts : FsckExitCode → List Text → Text
unfolding lit join decimal_ℤ
shown_parts c [] = lit "unknown error (code " ++ (decimal_ℤ c.bits ++ lit ")")
shown_parts c (p ∷ ps) = join (lit ", ") (p ∷ ps)

-- `Display`
unfoldable pub code_text : FsckExitCode → Text
unfolding code_eq is_clean code_parts shown_parts lit
code_text c =
    if code_eq c code_unknown
    then lit "unknown (fsck could not be spawned)"
    else if is_clean c
    then lit "No errors"
    else shown_parts c (code_parts c)
