-- ===== src/Bootloader/Grub.antt =====
-- src/bootloader/grub.rs: the backend over `grub-editenv` and files on the boot partition.
pub mod Keeps
pub mod Paths
pub mod Records
pub mod Saves
use omnect_os_init.Base.{
  zero, Bool, List, [], ◌∷◌, ◌++◌, Option, none, some, ◌==◌, if◌then◌else◌, Result, ok, err,
}
use omnect_os_init.Base.Text.{Text, lit, text_eq, split, split_once, unsnoc, is_empty}
use omnect_os_init.Base.Text.Numbers.{pos}
use omnect_os_init.Partition.Name.{PartitionName, boot, name_text}
use omnect_os_init.Filesystem.ExitCode.{FsckExitCode}
use omnect_os_init.Bootloader.Key.{BootEnvKey, fsck_status, key_text}
use omnect_os_init.Bootloader.Record.{FsckRecord, Applets, encode_fsck_output, decode_fsck_output}
use omnect_os_init.Bootloader.Env.{Op, BootEnv, get_fsck_env}
use omnect_os_init.Bootloader.Uboot.{Output}
use omnect_os_init.Error.{
  IoError, BootEnvError, env_file_not_found, command_failed, command_exit_code,
}

-- `grub-editenv`, and the files of the boot partition.
pub record GrubTools : Type 1 where
  pub State : Type 0
  pub editenv : List Text → State → Result IoError Output × State
  pub is_file : Text → State → Bool
  pub exists : Text → State → Bool
  pub write : Text → Text → State → Result IoError (Unit {0}) × State
  pub read_to_string : Text → State → Result IoError Text
  pub remove_file : Text → State → Result IoError (Unit {0}) × State

unfoldable pub grub_editenv : Text
unfolding lit
grub_editenv = lit "/bin/grub-editenv"

unfoldable pub grubenv_path : Text
unfolding lit
grubenv_path = lit "/rootfs/boot/EFI/BOOT/grubenv"

unfoldable pub fsck_output_too_large : Text
unfolding lit
fsck_output_too_large = lit "fsck output too large for the boot env"

unfoldable pub fsck_file_path : PartitionName → Text
fsck_file_path p = lit "/rootfs/boot/fsck." ++ name_text p

pub data FsckChannel : Type 0 where
  env file : FsckChannel

unfoldable pub channel_for : PartitionName → FsckChannel
channel_for boot = env
channel_for _ = file

io_err : Text → Text → IoError → BootEnvError
io_err action path e = command_failed (action ++ (lit " " ++ path)) e.message

-- `str::lines`: split at newlines, the last empty piece left out, and a final `\r` of each line too.
abbrev without_return : Text → Text
without_return l = elim (unsnoc l) [ none ↦ l | some (i, c) ↦ if c == b'\r' then i else l ]

abbrev ended : List Text → List Text
ended [] = []
ended (l ∷ []) = if is_empty l then [] else l ∷ []
ended (l ∷ m ∷ ls) = without_return l ∷ ended (m ∷ ls)

unfoldable pub lines : Text → List Text
unfolding split unsnoc
lines s = ended (split (λ c. c == b'\n') s)

-- The value behind the first line `key=value`.
unfoldable pub find_value : Text → List Text → Option Text
unfolding split_once text_eq
find_value key [] = none
find_value key (l ∷ ls) =
    let rest = find_value key ls in
    elim (split_once b'=' l) [ none ↦ rest | some (k, v) ↦ if text_eq k key then some v else rest ]

unfoldable pub run_result : Result IoError Output → Result BootEnvError Text
run_result (err e) = err (command_failed grub_editenv e.message)
run_result (ok out) = elim out.code [
  | some (pos zero) ↦ ok out.stdout
  | code ↦ err (command_exit_code grub_editenv code out.stderr)
]

abbrev done_with : Result BootEnvError Text → Result BootEnvError (Unit {0})
done_with (ok out) = ok tt
done_with (err e) = err e

abbrev named_io : {A : Type 0} → Text → Text → Result IoError A → Result BootEnvError A
named_io action path (ok a) = ok a
named_io action path (err e) = err (io_err action path e)

module _ (t : GrubTools) where
  -- `GrubBootEnv::new`
  unfoldable pub new_grub : t.State → Result BootEnvError t.State
  new_grub s = if t.is_file grubenv_path s then ok s else err (env_file_not_found grubenv_path)

  run_grub_editenv : List Text → Op t.State Text
  unfolding run_result
  run_grub_editenv args s = let (r, s') = t.editenv args s in (run_result r, s')

  unfoldable pub grub_get_env : BootEnvKey → Op t.State (Option Text)
  unfolding run_grub_editenv lines find_value key_text lit
  grub_get_env key s =
      let (r, s') = run_grub_editenv (lit "list" ∷ []) s in
      (elim r [ err e ↦ err e | ok out ↦ ok (find_value (key_text key) (lines out)) ], s')

  unfoldable pub grub_set_env : BootEnvKey → Option Text → Op t.State (Unit {0})
  unfolding run_grub_editenv key_text lit
  grub_set_env key (some v) s =
      let (r, s') = run_grub_editenv (lit "set" ∷ (key_text key ++ (lit "=" ++ v)) ∷ []) s in
      (done_with r, s')
  grub_set_env key none s =
      let (r, s') = run_grub_editenv (lit "unset" ∷ key_text key ∷ []) s in (done_with r, s')

  unfoldable pub save_fsck_to_file : PartitionName → Text → Op t.State (Unit {0})
  unfolding io_err fsck_file_path
  save_fsck_to_file p encoded s =
      let path = fsck_file_path p in
      let (r, s') = t.write path encoded s in (named_io (lit "write") path r, s')

  unfoldable pub clear_fsck_file : PartitionName → Op t.State (Unit {0})
  unfolding io_err fsck_file_path
  clear_fsck_file p s =
      let path = fsck_file_path p in
      let (r, s') = t.remove_file path s in
      if t.exists path s then (named_io (lit "remove") path r, s') else (ok tt, s)

  module _ (a : Applets) where
    -- A record that does not decode is lost: the file is gone, and nothing is reported.
    unfoldable pub get_fsck_from_file : PartitionName → Op t.State (Option FsckRecord)
    unfolding io_err fsck_file_path decode_fsck_output
    get_fsck_from_file p s =
        let path = fsck_file_path p in
        let s' = (t.remove_file path s).1 in
        if t.is_file path s
        then elim (t.read_to_string path s) [
          | err e ↦ (err (io_err (lit "read") path e), s)
          | ok encoded ↦ (ok (decode_fsck_output a encoded), s')
        ]
        else (ok none, s)

    -- `write_boot_fsck_record`: the exit code alone is tried where the full record is refused.
    unfoldable pub write_boot_fsck_record :
        FsckExitCode → Text → (Text → Op t.State (Unit {0})) → Op t.State (Unit {0})
    unfolding encode_fsck_output
    write_boot_fsck_record code encoded write s =
        let (r, s') = write encoded s in
        let again = write (encode_fsck_output a code.bits fsck_output_too_large) s' in
        elim r [ ok _ ↦ (ok tt, s') | err _ ↦ again ]

    unfoldable pub grub_save_fsck : PartitionName → FsckExitCode → Text → Op t.State (Unit {0})
    unfolding channel_for write_boot_fsck_record save_fsck_to_file grub_set_env encode_fsck_output
    grub_save_fsck p code output s =
        let encoded = encode_fsck_output a code.bits output in
        elim (channel_for p) [
          | env ↦
              write_boot_fsck_record code encoded
                (λ payload. grub_set_env (fsck_status p) (some payload)) s
          | file ↦ save_fsck_to_file p encoded s
        ]

    unfoldable pub grub_get_fsck : PartitionName → Op t.State (Option FsckRecord)
    unfolding channel_for get_fsck_from_file get_fsck_env grub_get_env
    grub_get_fsck p s = elim (channel_for p) [
      | env ↦ get_fsck_env a grub_get_env p s
      | file ↦ get_fsck_from_file p s
    ]

    unfoldable pub grub_clear_fsck : PartitionName → Op t.State (Unit {0})
    unfolding channel_for clear_fsck_file grub_set_env
    grub_clear_fsck p s = elim (channel_for p) [
      | env ↦ grub_set_env (fsck_status p) none s
      | file ↦ clear_fsck_file p s
    ]

    unfoldable pub grub_boot_env : BootEnv
    unfolding grub_get_env grub_set_env grub_save_fsck grub_get_fsck grub_clear_fsck
    grub_boot_env = record {
      State = t.State;
      get_env = grub_get_env;
      set_env = grub_set_env;
      save_fsck_status = grub_save_fsck;
      get_fsck_status = grub_get_fsck;
      clear_fsck_status = grub_clear_fsck;
    }
