-- ===== src/Mode/FactoryReset/Reset.antt =====
-- The sequence of src/mode/factory_reset/mod.rs: mounts, backup, wipe, reformat, restore, and the
-- answer to the trigger. The tracked mounts stand with the newest first.
use omnect_os_init.Base.{
  Bool, ◌||◌, List, [], ◌∷◌, ◌++◌, Option, none, some, if◌then◌else◌, Result, ok, err, map_err,
}
use omnect_os_init.Base.Exec.{Exec, pure, map_error, on_second, ◌>>◌, ◌>>=◌}
use omnect_os_init.Base.FilePath.{path_join, path_eq, path_starts_with}
use omnect_os_init.Base.Text.{Text, lit}
use omnect_os_init.Error.{
  FilesystemError, mount_failed, overlay_failed, FactoryResetError, reformat_failed, InitramfsError,
  filesystem, factory_reset,
}
use omnect_os_init.Error.Display.{filesystem_text, initramfs_text}
use omnect_os_init.Filesystem.BootSequence.{Partitions, mount_tracked_partition}
use omnect_os_init.Filesystem.Mount.{unmount_tracked, ext4_readonly, ext4_readwrite}
use omnect_os_init.Filesystem.Overlay.{
  Tracked, setup_etc_overlay_tracked, setup_data_overlay_tracked, etc_path, home_path,
}
use omnect_os_init.Filesystem.Paths.{factory_mount, etc_mount, data_mount}
use omnect_os_init.Filesystem.Reformat.{reformat_ext4}
use omnect_os_init.Filesystem.System.{System}
use omnect_os_init.Filesystem.Types.{ext4}
use omnect_os_init.Mode.FactoryReset.Backup.{restore_all}
use omnect_os_init.Mode.FactoryReset.Status.{
  ResetFailureSignal, Outcome, exhausted_outcome, restored_status,
}
use omnect_os_init.Partition.Name.{PartitionName, factory, etc, data_part, name_equality}
use omnect_os_init.Runtime.Ods.{OdsStatus}

-- `FACTORY_RESET_BACKUP_DIR`
unfoldable pub factory_reset_backup_dir : Text
unfolding lit
factory_reset_backup_dir = lit "/tmp/factory_reset/backup"

-- The trait `WipeOps`.
pub record WipeOps (S : System) : Type 0 where
  pub wipe_random : Text → Exec FactoryResetError S.State (Unit {0})
  pub wipe_discard : Text → Exec FactoryResetError S.State (Unit {0})

-- `WipeTargets`
pub record WipeTargets : Type 0 where
  pub for_data : Text
  pub for_etc : Text

pub record ReformatTargets : Type 0 where
  pub data_dev : Text
  pub etc_dev : Text
  pub preserve_list : List Text
  pub backed_up : List Text
  pub backup_dir : Text

pub record RetryReport : Type 0 where
  pub retried : List PartitionName
  pub reformat_failed : List PartitionName
  pub exhausted : Option ResetFailureSignal

failed_mount : Text → ReformatTargets → Option PartitionName
unfolding path_eq
failed_mount src_path targets =
    if path_eq src_path targets.data_dev
    then some data_part
    else if path_eq src_path targets.etc_dev
    then some etc
    else none

failed_overlay : Text → Text → Option PartitionName
unfolding path_eq path_starts_with path_join
failed_overlay target rootfs =
    if path_starts_with target (path_join rootfs data_mount)
      || path_eq target (path_join rootfs home_path)
    then some data_part
    else if path_starts_with target (path_join rootfs etc_mount)
        || path_eq target (path_join rootfs etc_path)
    then some etc
    else none

unfoldable pub resolve_failed_partition :
    InitramfsError → Text → ReformatTargets → Option PartitionName
unfolding failed_mount failed_overlay
resolve_failed_partition (filesystem (mount_failed src_path _ _)) rootfs targets =
    failed_mount src_path targets
resolve_failed_partition (filesystem (overlay_failed target _)) rootfs targets =
    failed_overlay target rootfs
resolve_failed_partition _ rootfs targets = none

-- The report of the mount behind the reformats.
unfoldable pub report_of :
    (retried reformat_failed : List PartitionName)
    → Text
    → ReformatTargets
    → Result InitramfsError (Unit {0})
    → Result InitramfsError RetryReport
unfolding resolve_failed_partition initramfs_text
report_of retried failed rootfs targets (ok _) =
    ok (record { retried = retried; reformat_failed = failed; exhausted = none })
report_of retried failed rootfs targets (err e) = elim (resolve_failed_partition e rootfs targets) [
  | none ↦ err e
  | some p ↦ ok (record {
    retried = retried;
    reformat_failed = failed;
    exhausted = some (record { partition = p; reason = initramfs_text e });
  })
]

module _ (S : System) where
  -- An operation of a reset: the tracked mounts, the status of the boot and the file systems.
  abbrev pub Reset : Type 0 → Type 0
  Reset A = Exec InitramfsError (List Text × (OdsStatus × S.State)) A

  abbrev pub on_files : {A : Type 0} → Exec InitramfsError S.State A → Reset A
  on_files m = on_second (on_second m)

  with_status :
      {A : Type 0}
      → OdsStatus
      → Result FilesystemError A × (List Text × S.State)
      → Result InitramfsError A × (List Text × (OdsStatus × S.State))
  with_status o (r, (mounts, s)) = (map_err filesystem r, (mounts, (o, s)))

  overlay_step : {A : Type 0} → Tracked S A → Reset A
  unfolding with_status
  overlay_step m (mounts, (o, s)) = with_status o (m (mounts, s))

  -- `unmount_tracked`, which drains the list.
  unfoldable pub unmount_all : Reset (Unit {0})
  unfolding with_status unmount_tracked
  unmount_all (mounts, (o, s)) =
      let (r, s') = unmount_tracked S mounts s in (map_err filesystem r, ([], (o, s')))

  -- `inspect_err`: what is mounted is unmounted, and the error stays.
  unfoldable pub or_unmount :
      {A : Type 0}
      → Result InitramfsError A × (List Text × (OdsStatus × S.State))
      → Result InitramfsError A × (List Text × (OdsStatus × S.State))
  unfolding unmount_all
  or_unmount (ok a, t) = (ok a, t)
  or_unmount (err e, t) = (err e, (unmount_all t).1)

  -- Which data the feature `persistent-var-log` binds is a parameter.
  unfoldable pub factory_reset_mount : Bool → Partitions → Text → Reset (Unit {0})
  unfolding overlay_step mount_tracked_partition setup_etc_overlay_tracked
      setup_data_overlay_tracked
  factory_reset_mount persistent_var_log partitions rootfs = do
    mount_tracked_partition S partitions factory factory_mount ext4_readonly ext4 rootfs
    mount_tracked_partition S partitions etc etc_mount ext4_readwrite ext4 rootfs
    mount_tracked_partition S partitions data_part data_mount ext4_readwrite ext4 rootfs
    overlay_step (setup_etc_overlay_tracked S rootfs)
    overlay_step (setup_data_overlay_tracked S persistent_var_log rootfs)

  -- `RealReformatOps::reformat`
  reformat : Text → Text → Exec InitramfsError S.State (Unit {0})
  unfolding reformat_ext4 filesystem_text
  reformat device label =
      map_error (λ e. factory_reset (reformat_failed device (filesystem_text e)))
        (reformat_ext4 S device label)

  -- A failed `mkfs` is tried once more; the partitions with one failure, and those with two.
  abbrev Tries : Type 0
  Tries = List PartitionName × List PartitionName

  second_try : PartitionName → Tries → Result InitramfsError (Unit {0}) × S.State → Tries × S.State
  second_try p (retried, failed) (ok _, s) = ((retried ++ p ∷ [], failed), s)
  second_try p (retried, failed) (err e, s) = ((retried ++ p ∷ [], failed ++ p ∷ []), s)

  first_try :
      PartitionName
      → Text
      → Text
      → Tries
      → Result InitramfsError (Unit {0}) × S.State
      → Tries × S.State
  unfolding second_try reformat
  first_try p device label tries (ok _, s) = (tries, s)
  first_try p device label tries (err e, s) = second_try p tries (reformat device label s)

  unfoldable pub reformat_with_retry :
      PartitionName → Text → Text → Tries × S.State → Tries × S.State
  unfolding first_try reformat
  reformat_with_retry p device label (tries, s) =
      first_try p device label tries (reformat device label s)

  module _ (persistent_var_log : Bool) where
    mount_all : Partitions → Text → Reset (Unit {0})
    unfolding or_unmount factory_reset_mount
    mount_all partitions rootfs t =
        or_unmount (factory_reset_mount persistent_var_log partitions rootfs t)

    unfoldable pub reformat_and_mount_with_retry :
        Partitions → Text → ReformatTargets → Reset RetryReport
    unfolding reformat_with_retry mount_all report_of
    reformat_and_mount_with_retry partitions rootfs targets (mounts, (o, s)) =
        let (tries, s') =
          reformat_with_retry etc targets.etc_dev (lit "etc")
            (reformat_with_retry data_part targets.data_dev (lit "data") (([], []), s)) in
        let (r, t) = mount_all partitions rootfs (mounts, (o, s')) in
        (report_of tries.0 tries.1 rootfs targets r, t)

    -- Behind the mount: a partition that never became usable ends the reset, and otherwise what was
    -- backed up is restored.
    unfoldable pub after_mount :
        Text → ReformatTargets → RetryReport → Option ResetFailureSignal → Reset Outcome
    unfolding unmount_all restore_all restored_status exhausted_outcome or_unmount
    after_mount rootfs targets report (some signal) =
        λ t. (ok (exhausted_outcome signal report.retried targets.preserve_list), (unmount_all t).1)
    after_mount rootfs targets report none = do
      restore_result ←
          (λ t. or_unmount (on_files (restore_all S rootfs targets.backed_up targets.backup_dir) t))
      unmount_all
      pure (
        restored_status report.retried report.reformat_failed restore_result targets.preserve_list,
        none,
      )

    unfoldable pub run_destructive_phase : Partitions → Text → ReformatTargets → Reset Outcome
    unfolding reformat_and_mount_with_retry after_mount
    run_destructive_phase partitions rootfs targets = do
      report ← reformat_and_mount_with_retry partitions rootfs targets
      after_mount rootfs targets report report.exhausted
