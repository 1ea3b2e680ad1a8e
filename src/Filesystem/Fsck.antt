-- ===== src/Filesystem/Fsck.antt =====
-- src/filesystem/fsck.rs: the runs of fsck on a device and what their exit codes decide.
pub mod Verdicts
use omnect_os_init.Base.{
  ℕ, Bool, true, false, ◌&&◌, not, List, [], ◌∷◌, ◌++◌, Option, none, some, if◌then◌else◌, Result,
  ok, err,
}
use omnect_os_init.Base.Exec.{Exec, pure, lift, ◌>>=◌, map_error}
use omnect_os_init.Base.Text.{Text, lit, contains}
use omnect_os_init.Bootloader.Uboot.{Output}
use omnect_os_init.Error.{IoError, FilesystemError, fsck_failed, fsck_requires_reboot}
use omnect_os_init.Filesystem.ExitCode.{
  FsckExitCode, code_unknown, code_from_status, is_clean, is_mount_safe, is_reboot_required,
}
use omnect_os_init.Filesystem.System.{System, Command}
use omnect_os_init.Filesystem.Types.{FsType, ext4, fs_text}

pub record FsckResult : Type 0 where
  pub device : Text
  pub exit_code : FsckExitCode
  pub output : Text

unfoldable pub fsck_cmd : Text
fsck_cmd = lit "/sbin/fsck"

unfoldable pub fsck_command : Text → FsType → Bool → Command
fsck_command device fstype force = record {
  program = fsck_cmd;
  args =
      lit "-y"
      ∷ ((if force then lit "-f" ∷ [] else []) ++ (lit "-t" ∷ fs_text fstype ∷ device ∷ []));
  envs = (lit "LC_ALL", lit "C") ∷ [];
}

-- e2fsck fills the bit mask of fsck(8); fsck.fat does not.
unfoldable pub uses_fsck_bitmask : FsType → Bool
uses_fsck_bitmask ext4 = true
uses_fsck_bitmask _ = false

unfoldable pub needs_full_check : FsType → FsckExitCode → Text → Bool
unfolding uses_fsck_bitmask contains
needs_full_check fstype code output =
    uses_fsck_bitmask fstype && is_clean code && contains (lit "recovering journal") output

unfoldable pub evaluate : Text → FsType → FsckExitCode → Text → Result FilesystemError FsckResult
unfolding uses_fsck_bitmask
evaluate device fstype code output =
    if uses_fsck_bitmask fstype && is_reboot_required code
    then err (fsck_requires_reboot device code output)
    else if not (is_mount_safe code)
    then err (fsck_failed device code output)
    else ok (record { device = device; exit_code = code; output = output })

unfoldable pub tolerate_failure :
    Result FilesystemError FsckResult → Result FilesystemError FsckResult
tolerate_failure (ok r) = ok r
tolerate_failure (err (fsck_failed device code output)) =
    ok (record { device = device; exit_code = code; output = output })
tolerate_failure (err e) = err e

-- The runs of fsck, forced or not, as an operation that the caller gives.
module _ {S : Type 0} (run : Bool → Exec FilesystemError S (FsckExitCode × Text)) where
  full_check : Text → FsType → FsckExitCode × Text → Exec FilesystemError S FsckResult
  unfolding needs_full_check evaluate
  full_check device fstype (code, output) =
      if needs_full_check fstype code output
      then (do (code', full) ← run true; lift (evaluate device fstype code' (output ++ full)))
      else lift (evaluate device fstype code output)

  unfoldable pub check_filesystem_with : Text → FsType → Exec FilesystemError S FsckResult
  unfolding full_check
  check_filesystem_with device fstype = do first ← run false; full_check device fstype first

module _ (S : System) where
  unfoldable pub run_fsck :
      Text → FsType → Bool → Exec FilesystemError S.State (FsckExitCode × Text)
  unfolding fsck_command code_from_status
  run_fsck device fstype force = do
    out ←
        map_error
          (λ (e : IoError).
            fsck_failed device code_unknown
              (lit "failed to execute " ++ (fsck_cmd ++ (lit ": " ++ e.message))))
          (S.output (fsck_command device fstype force))
    pure (code_from_status out.code, out.stdout ++ out.stderr)

  unfoldable pub check_filesystem : Text → FsType → Exec FilesystemError S.State FsckResult
  unfolding check_filesystem_with run_fsck
  check_filesystem device fstype = check_filesystem_with (run_fsck device fstype) device fstype

  unfoldable pub check_filesystem_lenient : Text → FsType → Exec FilesystemError S.State FsckResult
  unfolding check_filesystem tolerate_failure
  check_filesystem_lenient device fstype s =
      let (r, s') = check_filesystem device fstype s in (tolerate_failure r, s')
