-- ===== src/Init.antt =====
-- src/lib.rs: what the init derives from the boot environment once it is opened.
pub mod FirstBoot
pub mod Decision
pub mod RanBefore
pub mod Run
use omnect_os_init.Base.{
  Bool, true, false, not, List, [], ◌∷◌, Option, none, some, if◌then◌else◌, Result, ok, err,
}
use omnect_os_init.Base.Text.{Text}
use omnect_os_init.Bootloader.Env.{
  BootEnv, BootEnvState, available, degraded, BootEnvDecision, go_on, abort, Op, is_flag_set,
  is_first_boot_done, update_flags,
}
use omnect_os_init.Bootloader.Key.{BootEnvKey, validate_update}
use omnect_os_init.Error.{BootEnvError, InitramfsError}
use omnect_os_init.Error.Display.{boot_env_text}
use omnect_os_init.Filesystem.BootSequence.{persist_fsck_results}
use omnect_os_init.Filesystem.System.{System}
use omnect_os_init.Runtime.Ods.{OdsStatus, set_degraded_boot}

-- The value of a read, or what stands for one that failed.
abbrev pub or_default : {S : Type 0} → Bool → Result BootEnvError Bool × S → Bool × S
or_default default (ok b, s) = (b, s)
or_default default (err e, s) = (default, s)

-- What `apply_boot_env_decision` leaves: its result, and the environment, the status and the file
-- systems as it wrote them, on an error too. There is no environment after an abort.
pub record Applied (B : BootEnv) (S : System) : Type 0 where
  pub result : Result InitramfsError (Unit {0})
  pub env : Option (BootEnvState B)
  pub status : OdsStatus
  pub files : S.State

module _ (B : BootEnv) where
  unfoldable pub update_pending_from_env : BootEnvState B → Bool × BootEnvState B
  unfolding is_flag_set
  update_pending_from_env (available b) =
      let (pending, b') = or_default false (is_flag_set B validate_update b) in
      (pending, available b')
  update_pending_from_env (degraded e) = (false, degraded e)

  -- No flag of the list is set; the reads stop at the first one that is, or that fails.
  none_set : List BootEnvKey → B.State → Bool × B.State
  unfolding is_flag_set
  none_set [] b = (true, b)
  none_set (key ∷ keys) b =
      let (set, b') = or_default true (is_flag_set B key b) in
      let rest = none_set keys b' in if set then (false, b') else rest

  unfoldable pub detect_first_boot : BootEnvState B → Bool × BootEnvState B
  unfolding is_first_boot_done none_set
  detect_first_boot (available b) =
      let (done, b') = or_default true (is_first_boot_done B b) in
      let (first, b'') = (if done then (false, b') else none_set update_flags b') in
      (first, available b'')
  detect_first_boot (degraded e) = (false, degraded e)

  -- The status after the core mounts succeeded.
  unfoldable pub report_degraded : BootEnvState B → OdsStatus → OdsStatus
  unfolding boot_env_text
  report_degraded (available b) o = o
  report_degraded (degraded e) o = set_degraded_boot (boot_env_text e) o

  module _ (S : System) where
    continued :
        Result InitramfsError (Unit {0}) → OdsStatus → BootEnvState B × S.State → Applied B S
    unfolding report_degraded
    continued (err e) o (env, s) = record { result = err e; env = some env; status = o; files = s }
    continued (ok _) o (env, s) = record {
      result = ok tt;
      env = some env;
      status = report_degraded env o;
      files = s;
    }

    aborted : InitramfsError → Result InitramfsError (Unit {0}) → OdsStatus → S.State → Applied B S
    aborted e (err core) o s = record { result = err core; env = none; status = o; files = s }
    aborted e (ok _) o s = record { result = err e; env = none; status = o; files = s }

    unfoldable pub apply_boot_env_decision :
        BootEnvDecision B
        → Result InitramfsError (Unit {0})
        → OdsStatus
        → Text
        → S.State
        → Applied B S
    unfolding continued aborted persist_fsck_results
    apply_boot_env_decision (go_on env) core o rootfs s =
        continued core o (persist_fsck_results B S o rootfs (env, s))
    apply_boot_env_decision (abort e) core o rootfs s = aborted e core o s
