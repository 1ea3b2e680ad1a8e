-- ===== src/Init/Decision.antt =====
-- What `apply_boot_env_decision` of src/lib.rs does with the outcome of the core mounts.
use omnect_os_init.Base.{◌≡◌, refl, ap, Bool, true, false, some, Result, ok, err}
use omnect_os_init.Base.Text.{Text}
use omnect_os_init.Bootloader.Env.{
  BootEnv, BootEnvState, available, degraded, BootEnvDecision, go_on, abort, classify_boot_env,
}
use omnect_os_init.Error.{BootEnvError, InitramfsError, degraded_boot}
use omnect_os_init.Error.Display.{boot_env_text}
use omnect_os_init.Filesystem.BootSequence.{persist_fsck_results}
use omnect_os_init.Filesystem.BootSequence.Carry.{persist_fsck_results-degraded}
use omnect_os_init.Filesystem.System.{System}
use omnect_os_init.Init.{apply_boot_env_decision, continued, aborted, report_degraded}
use omnect_os_init.Runtime.Ods.{OdsStatus}

module _ (B : BootEnv) (S : System) where
  continued-result :
      (core : Result InitramfsError (Unit {0})) (o : OdsStatus) (p : BootEnvState B × S.State)
      → ((continued B S core o p).result ≡ core)
        × ((continued B S core o p).env ≡ some p.0)
        × ((continued B S core o p).files ≡ p.1)
  unfolding continued
  continued-result (err e) o (env, s) = (refl, refl, refl)
  continued-result (ok a) o (env, s) = (refl, refl, refl)

  -- With an environment that opened, the fsck results are persisted before the outcome of the core
  -- mounts decides: whatever the outcome is, it is the result, and the environment and the file
  -- systems are those that `persist_fsck_results` leaves.
  pub apply_boot_env_decision-opened :
      (b : B.State) (is_release : Bool) (core : Result InitramfsError (Unit {0})) (o : OdsStatus)
      (rootfs : Text) (s : S.State)
      → let persisted = persist_fsck_results B S o rootfs (available b, s) in
        let applied =
          apply_boot_env_decision B S (classify_boot_env B (ok b) is_release) core o rootfs s in
        (applied.result ≡ core) × (applied.env ≡ some persisted.0) × (applied.files ≡ persisted.1)
  unfolding apply_boot_env_decision classify_boot_env
  apply_boot_env_decision-opened b is_release core o rootfs s =
      continued-result core o (persist_fsck_results B S o rootfs (available b, s))

  report_degraded-reason :
      (e : BootEnvError) (env : BootEnvState B) (o : OdsStatus)
      → env ≡ degraded e
      → (report_degraded B env o).degraded_boot ≡ some (record { reason = boot_env_text e })
  unfolding report_degraded
  report_degraded-reason e env o h = rw h refl

  -- An error of the core mounts is the result, whatever was decided about the environment.
  pub apply_boot_env_decision-core_error :
      (decision : BootEnvDecision B) (cause : InitramfsError) (o : OdsStatus) (rootfs : Text)
      (s : S.State)
      → (apply_boot_env_decision B S decision (err cause) o rootfs s).result ≡ err cause
  unfolding apply_boot_env_decision aborted
  apply_boot_env_decision-core_error (go_on env) cause o rootfs s =
      (continued-result (err cause) o (persist_fsck_results B S o rootfs (env, s))).0
  apply_boot_env_decision-core_error (abort e) cause o rootfs s = refl

  -- When the core mounts succeeded and the environment did not open, a release image boots on, with
  -- the reason in its status, and any other image stops.
  pub apply_boot_env_decision-degraded :
      (e : BootEnvError) (o : OdsStatus) (rootfs : Text) (s : S.State)
      → let applied = λ (is_release : Bool).
        apply_boot_env_decision B S (classify_boot_env B (err e) is_release) (ok tt) o rootfs s in
        ((applied true).result ≡ ok tt)
        × ((applied true).env ≡ some (degraded e))
        × ((applied true).status.degraded_boot ≡ some (record { reason = boot_env_text e }))
        × ((applied false).result ≡ err (degraded_boot e))
  unfolding apply_boot_env_decision classify_boot_env continued aborted
  apply_boot_env_decision-degraded e o rootfs s =
      let kept = persist_fsck_results-degraded B S e o rootfs s in
      (refl, ap some kept, report_degraded-reason e _ o kept, refl)
