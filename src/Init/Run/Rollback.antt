-- ===== src/Init/Run/Rollback.antt =====
-- What becomes of a boot that validates an update and fails, from `run_init` of src/lib.rs to the end
-- of src/main.rs.
use omnect_os_init.Base.{◌≡◌, ◌≢◌, refl, Bool, true, Option, none, some, Result, ok, err, inl, inr}
use omnect_os_init.Bootloader.Env.{BootEnv, BootEnvState, available, is_set, is_flag_set}
use omnect_os_init.Bootloader.Key.{validate_update}
use omnect_os_init.Config.Cmdline.{Cmdline}
use omnect_os_init.Error.{InitramfsError, recovery_class}
use omnect_os_init.Filesystem.System.{System}
use omnect_os_init.Init.{update_pending_from_env}
use omnect_os_init.Init.Run.{
  Parts, begin_init, begun, open_env, go_on_with, go_on_after, with_env, run_init,
}
use omnect_os_init.Main.{main, rebooting, AsksForReboot, handle_fatal_error-rebooting}
use omnect_os_init.Bootloader.Laws.{KeepsValues}
use omnect_os_init.Mode.FactoryReset.Config.{Json}
use omnect_os_init.Mode.FactoryReset.Reset.{WipeOps}
use omnect_os_init.Mode.Flash.Config.{Decoder}
use omnect_os_init.Mode.Normal.Run.{Outside}
use omnect_os_init.Partition.Layout.{PartitionLayout}
use omnect_os_init.Runtime.Ods.{OdsStatus}
use omnect_os_init.Recovery.{RecoveryClass, continue_degraded, reboot_to_apply, fatal}

asks_when_pending : (class : RecoveryClass) → class ≢ continue_degraded → AsksForReboot class true
asks_when_pending continue_degraded h = absurd (h refl)
asks_when_pending reboot_to_apply h = inl refl
asks_when_pending fatal h = inr (refl, refl)

main-pending :
    (p : Result InitramfsError (Unit {0}) × Bool) (is_release : Bool) (e : InitramfsError)
    → p.1 ≡ true
    → p.0 ≡ err e
    → recovery_class e ≢ continue_degraded
    → main none is_release (ok tt) (ok tt) p ≡ rebooting
unfolding main
main-pending p is_release e pending failed class =
    rw (failed, pending)
      ((handle_fatal_error-rebooting e is_release true).1 (asks_when_pending _ class))

module _ (B : BootEnv) (K : KeepsValues B) (S : System) (P : Parts B S) (W : WipeOps S) (J : Json)
    (d : Decoder) (x : Outside S) where
  go_on_with-pending :
      (cmdline : Cmdline) (layout : PartitionLayout) (result : Result InitramfsError (Unit {0}))
      (env : Option (BootEnvState B)) (t : OdsStatus × S.State) (b : B.State)
      → result ≡ ok tt
      → env ≡ some (available b)
      → is_set (K.value b validate_update) ≡ true
      → (go_on_with B S P W J d x cmdline layout result env t).1 ≡ true
  unfolding go_on_with with_env update_pending_from_env is_flag_set
  go_on_with-pending cmdline layout result env t b opens there set =
      rw (opens, there, K.get-value validate_update b) set

  run_init-pending :
      (s s' : S.State) (cmdline : Cmdline) (layout : PartitionLayout) (b : B.State)
      → begin_init B S P s ≡ (ok (cmdline, layout), s')
      → (open_env B S P layout s').result ≡ ok tt
      → (open_env B S P layout s').env ≡ some (available b)
      → is_set (K.value b validate_update) ≡ true
      → (run_init B S P W J d x s).1 ≡ true
  unfolding run_init begun go_on_after
  run_init-pending s s' cmdline layout b begins opens env set =
      let applied = open_env B S P layout s' in
      rw begins (
        go_on_with-pending cmdline layout applied.result applied.env (applied.status, applied.files)
          b opens env set)

  -- With an environment that keeps its values and a reboot that works, on both kinds of image: when
  -- the first steps and the core mounts succeed and the opened environment says that an update is to
  -- be validated, every error that the rest of the init ends in reboots the device, which makes the
  -- boot loader roll the update back, unless the error is of the class that the boot goes on with.
  pub main-run_init :
      (s s' : S.State) (cmdline : Cmdline) (layout : PartitionLayout) (b : B.State)
      (e : InitramfsError)
      → begin_init B S P s ≡ (ok (cmdline, layout), s')
      → (open_env B S P layout s').result ≡ ok tt
      → (open_env B S P layout s').env ≡ some (available b)
      → is_set (K.value b validate_update) ≡ true
      → (run_init B S P W J d x s).0 ≡ err e
      → recovery_class e ≢ continue_degraded
      → main none P.is_release (ok tt) (ok tt) (run_init B S P W J d x s) ≡ rebooting
  main-run_init s s' cmdline layout b e begins opens env set failed class =
      main-pending (run_init B S P W J d x s) P.is_release e
        (run_init-pending s s' cmdline layout b begins opens env set) failed class
