-- ===== src/Mode/Normal/Run/Reports.antt =====
-- What the normal mode of src/mode/normal.rs leaves for the next boot when fsck asks for a reboot.
use omnect_os_init.Base.{◌≡◌, refl, Option, true, some, err, inl, inr}
use omnect_os_init.Base.Dict.{lookup}
use omnect_os_init.Base.Exec.{Ensures-state, ◌>>=◌}
use omnect_os_init.Base.Text.{Text}
use omnect_os_init.Bootloader.Env.{BootEnv, BootEnvState, available}
use omnect_os_init.Bootloader.Laws.{KeepsRecords}
use omnect_os_init.Config.Cmdline.{Cmdline}
use omnect_os_init.Error.{fsck_requires_reboot, InitramfsError, filesystem, recovery_class}
use omnect_os_init.Filesystem.BootSequence.{
  Partitions, mount_remaining_partitions, drain_fsck_env, fsck_partitions,
}
use omnect_os_init.Filesystem.BootSequence.Carry.{contains, DistinctKeys, AllTaken}
use omnect_os_init.Filesystem.BootSequence.Checks.{status_of, reboot-not_clean}
use omnect_os_init.Filesystem.BootSequence.Distinct.{mount_remaining_partitions-Keeps}
use omnect_os_init.Filesystem.BootSequence.Drain.{drain_fsck_env-persist_fsck_results}
use omnect_os_init.Filesystem.BootSequence.Stops.{mount_remaining_partitions-IsStop}
use omnect_os_init.Filesystem.ExitCode.{FsckExitCode, is_reboot_required}
use omnect_os_init.Filesystem.System.{System}
use omnect_os_init.Mode.Normal.Run.{Outside, mount_and_persist, run_normal}
use omnect_os_init.Partition.Name.{PartitionName, name_equality}
use omnect_os_init.Recovery.{reboot_to_apply}
use omnect_os_init.Runtime.Ods.{OdsStatus, FsckStatus, new_status}

module _ (B : BootEnv) (K : KeepsRecords B) (S : System) (x : Outside S) where
  -- What the boot reports that starts from the environment of a state.
  abbrev pub next_report :
      PartitionName → BootEnvState B × (OdsStatus × S.State) → Option FsckStatus
  next_report name t = lookup name (drain_fsck_env B new_status t.0).0.fsck

  stopped :
      (partitions : Partitions) (rootfs : Text) (cmdline : Cmdline) (b : B.State) (o : OdsStatus)
      (s : S.State) (e : InitramfsError)
      → (mount_remaining_partitions S partitions rootfs (o, s)).0 ≡ err e
      → run_normal B S x partitions rootfs cmdline (available b, (o, s))
        ≡ (err e, (mount_and_persist B S partitions rootfs (available b, (o, s))).1)
  unfolding run_normal mount_and_persist ◌>>=◌
  stopped partitions rootfs cmdline b o s e failed = rw failed refl

  persisted_report :
      (partitions : Partitions) (rootfs : Text) (b : B.State) (o : OdsStatus) (s : S.State)
      (name : PartitionName) (code : FsckExitCode) (output : Text)
      → DistinctKeys o.fsck
      → AllTaken B K (mount_remaining_partitions S partitions rootfs (o, s)).1.0.fsck
      → lookup name (mount_remaining_partitions S partitions rootfs (o, s)).1.0.fsck
        ≡ some (status_of code output)
      → is_reboot_required code ≡ true
      → contains name fsck_partitions ≡ true
      → next_report name (mount_and_persist B S partitions rootfs (available b, (o, s))).1
        ≡ some (status_of code output)
  unfolding mount_and_persist
  persisted_report partitions rootfs b o s name code output distinct taken found bit checked =
      let (o', s') = (mount_remaining_partitions S partitions rootfs (o, s)).1 in
      drain_fsck_env-persist_fsck_results B K S o' rootfs b s' name (status_of code output)
        (Ensures-state (λ u. DistinctKeys u.0.fsck)
          (mount_remaining_partitions S partitions rootfs (o, s))
          (mount_remaining_partitions-Keeps S partitions rootfs (o, s) distinct))
        taken found (reboot-not_clean code bit) checked

  -- With a backend that keeps the records of this boot and a status without a partition twice, when
  -- a mount of the remaining partitions fails with an error that asks for a reboot, the normal mode passes
  -- that error on, which names an exit code and an output of fsck, and the next boot reports these
  -- of a partition.
  pub run_normal-next_report :
      (partitions : Partitions) (rootfs : Text) (cmdline : Cmdline) (b : B.State) (o : OdsStatus)
      (s : S.State) (e : InitramfsError)
      → DistinctKeys o.fsck
      → AllTaken B K (mount_remaining_partitions S partitions rootfs (o, s)).1.0.fsck
      → (mount_remaining_partitions S partitions rootfs (o, s)).0 ≡ err e
      → recovery_class e ≡ reboot_to_apply
      → (name : PartitionName) × (device : Text) × (code : FsckExitCode) × (output : Text) × (e
          ≡ filesystem (fsck_requires_reboot device code output))
        × ((run_normal B S x partitions rootfs cmdline (available b, (o, s))).0 ≡ err e)
        × (next_report name (run_normal B S x partitions rootfs cmdline (available b, (o, s))).1
            ≡ some (status_of code output))
  run_normal-next_report partitions rootfs cmdline b o s e distinct taken failed class =
      elim (mount_remaining_partitions-IsStop S partitions rootfs o s failed) [
        | inl fatal ↦ cc
        | inr (name, cause, e-eq, (device, code, output, cause-eq, found, bit), checked) ↦
            let same = stopped partitions rootfs cmdline b o s e failed in
            (
              name,
              device,
              code,
              output,
              cc,
              rw same refl,
              rw same (
                  persisted_report partitions rootfs b o s name code output distinct taken found bit
                    checked),
            )
      ]
