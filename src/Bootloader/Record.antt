-- ===== src/Bootloader/Record.antt =====
-- src/bootloader/types.rs: the fsck record as the text that the boot environment stores.
pub mod RoundTrip
use omnect_os_init.Base.{
  ℕ, Bool, List, [], ◌++◌, Option, none, some, if◌then◌else◌, Result, ok, err,
}
use omnect_os_init.Base.Text.{Text, lit, trim, split_once}
use omnect_os_init.Base.Text.Numbers.{ℤ, IntErrorKind, decimal_ℤ, parse_i32}
use omnect_os_init.Error.{IoError}
use omnect_os_init.Filesystem.ExitCode.{FsckExitCode}

pub record FsckRecord : Type 0 where
  pub exit_code : FsckExitCode
  pub output : Text

-- What a finished child process leaves: whether its status was success, and its standard output.
pub record Finished : Type 0 where
  pub success : Bool
  pub stdout : List ℕ

-- The busybox applets; each takes its standard input, and fails if it cannot be run. `lossy` is
-- `String::from_utf8_lossy`, and `bytes` is `str::as_bytes`.
pub record Applets : Type 0 where
  pub gzip : List ℕ → Result IoError Finished
  pub base64 : List ℕ → Result IoError Finished
  pub base64_decode : List ℕ → Result IoError Finished
  pub gunzip : List ℕ → Result IoError Finished
  pub bytes : Text → List ℕ
  pub lossy : List ℕ → Text

-- The standard output of an applet that ran and succeeded.
abbrev succeeded : Result IoError Finished → Option (List ℕ)
succeeded (err e) = none
succeeded (ok out) = if out.success then some out.stdout else none

module _ (a : Applets) where
  encoded_text : Option (List ℕ) → Text
  unfolding trim
  encoded_text none = []
  encoded_text (some b) = trim (a.lossy b)

  encode_compressed : Option (List ℕ) → Text
  unfolding encoded_text
  encode_compressed none = []
  encode_compressed (some z) = encoded_text (succeeded (a.base64 z))

  unfoldable pub encode_fsck_output : ℤ → Text → Text
  unfolding encode_compressed lit decimal_ℤ
  encode_fsck_output code output =
      encode_compressed (succeeded (a.gzip (a.bytes (decimal_ℤ code ++ (lit "\n" ++ output)))))

  unpack_compressed : Result IoError Finished → Result IoError (Option Text)
  unpack_compressed (err e) = err e
  unpack_compressed (ok out) = ok (if out.success then some (a.lossy out.stdout) else none)

  unpack_decoded : Result IoError Finished → Result IoError (Option Text)
  unfolding unpack_compressed
  unpack_decoded (err e) = err e
  unpack_decoded (ok out) = if out.success then unpack_compressed (a.gunzip out.stdout) else ok none

  unfoldable pub unpack_fsck_text : Text → Result IoError (Option Text)
  unfolding unpack_decoded
  unpack_fsck_text encoded = unpack_decoded (a.base64_decode (a.bytes encoded))

record_of_code : Result IntErrorKind ℤ → Text → Option FsckRecord
record_of_code (err e) output = none
record_of_code (ok code) output =
    some (record { exit_code = record { bits = code }; output = output })

record_of_parts : Option (Text × Text) → Option FsckRecord
unfolding record_of_code trim parse_i32
record_of_parts none = none
record_of_parts (some (code, output)) = record_of_code (parse_i32 (trim code)) output

unfoldable pub parse_fsck_text : Text → Option FsckRecord
unfolding record_of_parts split_once
parse_fsck_text raw = record_of_parts (split_once b'\n' raw)

record_of_unpacked : Result IoError (Option Text) → Option FsckRecord
unfolding parse_fsck_text
record_of_unpacked (err e) = none
record_of_unpacked (ok none) = none
record_of_unpacked (ok (some text)) = parse_fsck_text text

module _ (a : Applets) where
  unfoldable pub decode_fsck_output : Text → Option FsckRecord
  unfolding unpack_fsck_text record_of_unpacked
  decode_fsck_output encoded = record_of_unpacked (unpack_fsck_text a encoded)
