-- ===== src/InitSetup/ExtraBootargs.antt =====
-- src/init_setup/extra_bootargs.rs: the extra boot arguments go from the boot partition's files to
-- the boot environment.
pub mod Sync
use omnect_os_init.Base.{
  Bool, true, false, not, List, [], ◌∷◌, ◌++◌, Option, none, some, if◌then◌else◌, Result, ok, err,
  ◌>>=◌,
}
use omnect_os_init.Base.FilePath.{path_join}
use omnect_os_init.Base.Text.{Text, lit, text_eq, is_empty, trim, split_whitespace, join}
use omnect_os_init.Bootloader.Env.{BootEnv, BootEnvState, available, degraded}
use omnect_os_init.Bootloader.Key.{BootEnvKey, extra_boot_args}
use omnect_os_init.Error.{ErrorKind, IoError, BootEnvError, InitramfsError, extra_boot_args_updated}
use omnect_os_init.Error.Display.{boot_env_text}
use omnect_os_init.Filesystem.Paths.{boot_mount}
use omnect_os_init.Filesystem.System.{System}
use omnect_os_init.Runtime.Ods.{
  OdsStatus, ExtraBootArgsOutcome, file_read_failed, read_failed, set_env_failed, read_back_failed,
  read_back_mismatch, set_extra_bootargs_status,
}

bootargs_omnect_file : Text
unfolding lit
bootargs_omnect_file = lit "omnect_extra_bootargs_omnect"

bootargs_custom_file : Text
unfolding lit
bootargs_custom_file = lit "omnect_extra_bootargs_custom"

file_args : Result IoError Text → Result IoError (Option Text)
unfolding trim
file_args (ok s) = let trimmed = trim s in ok (if is_empty trimmed then none else some trimmed)
file_args (err e) = elim e.kind [
  | ErrorKind.not_found ↦ ok none
  | ErrorKind.out_of_memory ↦ err e
  | ErrorKind.other ↦ err e
]

combined_args : Option Text → Option Text → Text
unfolding lit
combined_args (some a) (some b) = a ++ (lit " " ++ b)
combined_args (some a) none = a
combined_args none (some b) = b
combined_args none none = []

squeezed : Text → Text
unfolding lit split_whitespace join
squeezed s = join (lit " ") (split_whitespace s)

-- `unwrap_or_default`
abbrev pub or_empty : Option Text → Text
or_empty none = []
or_empty (some s) = s

-- The value to write: no arguments unset the key.
abbrev pub value_of : Text → Option Text
value_of args = if is_empty args then none else some args

failed : ExtraBootArgsOutcome → Text → OdsStatus → OdsStatus
failed outcome reason o =
    set_extra_bootargs_status (record { outcome = outcome; reason = reason }) o

module _ (S : System) where
  unfoldable pub read_extra_bootargs : Text → S.State → Result IoError Text
  unfolding file_args combined_args squeezed bootargs_omnect_file bootargs_custom_file path_join
  read_extra_bootargs boot_dir s = do
    omnect ← file_args (S.read_to_string (path_join boot_dir bootargs_omnect_file) s)
    custom ← file_args (S.read_to_string (path_join boot_dir bootargs_custom_file) s)
    ok (squeezed (combined_args omnect custom))

module _ (B : BootEnv) where
  -- The result of the step with what it leaves of the environment and of the status.
  abbrev pub Step : Type 0
  Step = Result InitramfsError (Unit {0}) × (BootEnvState B × OdsStatus)

  verified : Text → Result BootEnvError (Option Text) → B.State → OdsStatus → Step
  unfolding failed text_eq lit boot_env_text
  verified args (err e) b o = (
    ok tt,
    (available b, failed read_back_failed (lit "read-back failed: " ++ boot_env_text e) o),
  )
  verified args (ok v) b o =
      if text_eq (or_empty v) args
      then (err extra_boot_args_updated, (available b, o))
      else (ok tt, (available b, failed read_back_mismatch (lit "read-back verify mismatch") o))

  written : Text → Result BootEnvError (Unit {0}) → B.State → OdsStatus → Step
  unfolding failed verified lit boot_env_text
  written args (err e) b o =
      (ok tt, (available b, failed set_env_failed (lit "set_env failed: " ++ boot_env_text e) o))
  written args (ok _) b o = let (r, b') = B.get_env extra_boot_args b in verified args r b' o

  with_current : Text → Result BootEnvError (Option Text) → B.State → OdsStatus → Step
  unfolding failed written text_eq lit boot_env_text
  with_current args (err e) b o = (
    ok tt,
    (available b, failed read_failed (lit "read current value failed: " ++ boot_env_text e) o),
  )
  with_current args (ok v) b o =
      let (r, b') = B.set_env extra_boot_args (value_of args) b in
      if text_eq (or_empty v) args then (ok tt, (available b, o)) else written args r b' o

  with_args : Result IoError Text → BootEnvState B → OdsStatus → Step
  unfolding failed with_current lit
  with_args (err e) env o =
      (ok tt, (env, failed file_read_failed (lit "reading bootargs files failed: " ++ e.message) o))
  with_args (ok args) (degraded e) o = (ok tt, (degraded e, o))
  with_args (ok args) (available b) o =
      let (r, b') = B.get_env extra_boot_args b in with_current args r b' o

  gated : Bool → Result IoError Text → BootEnvState B → OdsStatus → Step
  unfolding with_args
  gated false args env o = (ok tt, (env, o))
  gated true args env o = with_args args env o

  -- `run`; the sync of the file systems before the reboot is not modelled.
  unfoldable pub run_extra_bootargs :
      (S : System) → Text → S.State → BootEnvState B → OdsStatus → Step
  unfolding gated read_extra_bootargs boot_mount path_join
  run_extra_bootargs S rootfs s env o =
      gated o.first_boot (read_extra_bootargs S (path_join rootfs boot_mount) s) env o
