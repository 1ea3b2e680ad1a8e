-- ===== src/InitSetup/ResizeData.antt =====
-- src/init_setup/resize_data.rs: which results of the resize the boot goes on with. The resize itself
-- is a parameter.
use omnect_os_init.Base.{◌≡◌, refl, some, if◌then◌else◌, Result, ok, err, ◌⊎◌, inl, inr}
use omnect_os_init.Bootloader.Env.{BootEnv, BootEnvState, available, degraded}
use omnect_os_init.Error.{
  FilesystemError, fsck_requires_reboot, fsck_failed, ResizeDataError, InitramfsError, resize_data,
  invalid_device_path, extended_partition_not_found, non_utf8_path, recovery_class,
}
use omnect_os_init.Error.Display.{resize_text}
use omnect_os_init.Recovery.{reboot_to_apply, continue_degraded}
use omnect_os_init.Runtime.Ods.{
  OdsStatus, ResizeOutcome, skipped_fsck, tool_error, invalid_layout, set_resize_status,
}

pub outcome_for : ResizeDataError → ResizeOutcome
outcome_for (ResizeDataError.filesystem (fsck_failed _ _ _)) = skipped_fsck
outcome_for (invalid_device_path _) = invalid_layout
outcome_for (extended_partition_not_found _) = invalid_layout
outcome_for (non_utf8_path _) = invalid_layout
outcome_for _ = tool_error

unfoldable pub handle_result :
    Result InitramfsError (Unit {0}) → OdsStatus → Result InitramfsError (Unit {0}) × OdsStatus
unfolding outcome_for
handle_result (ok _) o = (ok tt, o)
handle_result (err (resize_data (ResizeDataError.filesystem (fsck_requires_reboot d c out)))) o =
    (err (resize_data (ResizeDataError.filesystem (fsck_requires_reboot d c out))), o)
handle_result (err (resize_data inner)) o = (
  ok tt,
  set_resize_status (record { outcome = outcome_for inner; reason = resize_text inner }) o,
)
handle_result (err e) o = (err e, o)

module _ {X : Type 0} (B : BootEnv) (resize : X → Result InitramfsError (Unit {0}) × X) where
  unfoldable pub attempt : BootEnvState B → OdsStatus → X → Result InitramfsError (Unit {0}) × X
  attempt (available b) o x = if o.first_boot then resize x else (ok tt, x)
  attempt (degraded e) o x = resize x

  -- `run`
  unfoldable pub run_resize_data :
      BootEnvState B → OdsStatus → X → (Result InitramfsError (Unit {0}) × OdsStatus) × X
  unfolding handle_result attempt
  run_resize_data env o x = let (r, x') = attempt env o x in (handle_result r o, x')

-- The policy and the step agree on every error of the resize: an error of the class that the boot
-- goes on with is absorbed, with its outcome and its text in the status, and every other one asks
-- for a reboot and passes as it is, with the status as it was.
pub handle_result-recovery_class :
    (x : ResizeDataError) (o : OdsStatus)
    → let (r, o') = handle_result (err (resize_data x)) o in
      ((recovery_class (resize_data x) ≡ continue_degraded)
        × (r ≡ ok tt)
        × (o'.resize_data ≡ some (record { outcome = outcome_for x; reason = resize_text x })))
      ⊎ ((recovery_class (resize_data x) ≡ reboot_to_apply) × (r ≡ err (resize_data x)) × (o' ≡ o))
unfolding handle_result recovery_class
handle_result-recovery_class (ResizeDataError.command_failed _ _ _) o = inl (refl, refl, refl)
handle_result-recovery_class (invalid_device_path _) o = inl (refl, refl, refl)
handle_result-recovery_class (extended_partition_not_found _) o = inl (refl, refl, refl)
handle_result-recovery_class (non_utf8_path _) o = inl (refl, refl, refl)
handle_result-recovery_class (ResizeDataError.io _) o = inl (refl, refl, refl)
handle_result-recovery_class (ResizeDataError.filesystem (FilesystemError.mount_failed _ _ _)) o =
    inl (refl, refl, refl)
handle_result-recovery_class (ResizeDataError.filesystem (FilesystemError.unmount_failed _ _)) o =
    inl (refl, refl, refl)
handle_result-recovery_class (ResizeDataError.filesystem (fsck_failed _ _ _)) o =
    inl (refl, refl, refl)
handle_result-recovery_class (ResizeDataError.filesystem (fsck_requires_reboot _ _ _)) o =
    inr (refl, refl, refl)
handle_result-recovery_class (ResizeDataError.filesystem (FilesystemError.overlay_failed _ _)) o =
    inl (refl, refl, refl)
handle_result-recovery_class (ResizeDataError.filesystem (FilesystemError.format_failed _ _ _)) o =
    inl (refl, refl, refl)
handle_result-recovery_class (ResizeDataError.filesystem (FilesystemError.io _)) o =
    inl (refl, refl, refl)
