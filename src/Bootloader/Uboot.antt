-- ===== src/Bootloader/Uboot.antt =====
-- src/bootloader/uboot.rs: the backend over `fw_printenv` and `fw_setenv`.
pub mod Keeps
use omnect_os_init.Base.{
  Bool, true, false, zero, suc, Option, none, some, if◌then◌else◌, Result, ok, err,
}
use omnect_os_init.Base.Text.{Text, lit, trim, is_empty}
use omnect_os_init.Base.Text.Numbers.{ℤ, pos}
use omnect_os_init.Bootloader.Key.{key_text}
use omnect_os_init.Bootloader.Record.{Applets}
use omnect_os_init.Bootloader.Env.{Op, BootEnv, with_default_fsck}
use omnect_os_init.Error.{IoError, BootEnvError, command_failed, command_exit_code}

-- The output of a command that ran; no code stands for a kill by a signal. The streams are read
-- as text by `from_utf8_lossy`.
pub record Output : Type 0 where
  pub code : Option ℤ
  pub stdout : Text
  pub stderr : Text
  -- `ExitStatus` as text
  pub status : Text

-- `ExitStatus::success`
abbrev pub is_success : Output → Bool
is_success out = elim out.code [ some (pos zero) ↦ true | code ↦ false ]

-- The two commands, over the environment that they keep.
pub record FwTools : Type 1 where
  pub State : Type 0
  pub printenv : Text → State → Result IoError Output × State
  pub setenv : Text → Option Text → State → Result IoError Output × State

unfoldable pub fw_printenv : Text
unfolding lit
fw_printenv = lit "/bin/fw_printenv"

unfoldable pub fw_setenv : Text
unfolding lit
fw_setenv = lit "/bin/fw_setenv"

-- What a value that was printed stands for.
unfoldable pub printed_value : Text → Option Text
unfolding trim
printed_value stdout = let value = trim stdout in if is_empty value then none else some value

-- Exit code 1 means that the variable is not set.
unfoldable pub printed : Output → Result BootEnvError (Option Text)
unfolding printed_value
printed out = elim out.code [
  | some (pos zero) ↦ ok (printed_value out.stdout)
  | some (pos (suc zero)) ↦ ok none
  | code ↦ err (command_exit_code fw_printenv code out.stderr)
]

unfoldable pub run_fw_printenv_result : Result IoError Output → Result BootEnvError (Option Text)
unfolding printed
run_fw_printenv_result (err e) = err (command_failed fw_printenv e.message)
run_fw_printenv_result (ok out) = printed out

set_result : Output → Result BootEnvError (Unit {0})
set_result out = elim out.code [
  | some (pos zero) ↦ ok tt
  | code ↦ err (command_exit_code fw_setenv code out.stderr)
]

run_fw_setenv_result : Result IoError Output → Result BootEnvError (Unit {0})
unfolding set_result
run_fw_setenv_result (err e) = err (command_failed fw_setenv e.message)
run_fw_setenv_result (ok out) = set_result out

module _ (t : FwTools) where
  unfoldable pub run_fw_printenv : Text → Op t.State (Option Text)
  unfolding run_fw_printenv_result
  run_fw_printenv var s = let (r, s') = t.printenv var s in (run_fw_printenv_result r, s')

  unfoldable pub run_fw_setenv : Text → Option Text → Op t.State (Unit {0})
  unfolding run_fw_setenv_result
  run_fw_setenv var value s = let (r, s') = t.setenv var value s in (run_fw_setenv_result r, s')

  -- `UBootBootEnv`, with the default fsck methods of the trait
  unfoldable pub uboot_boot_env : Applets → BootEnv
  unfolding run_fw_printenv run_fw_setenv with_default_fsck key_text
  uboot_boot_env a =
      with_default_fsck a (λ key. run_fw_printenv (key_text key))
        (λ key value. run_fw_setenv (key_text key) value)
