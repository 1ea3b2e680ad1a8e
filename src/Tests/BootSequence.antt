-- ===== src/Tests/BootSequence.antt =====
-- Runs of the mounts of a boot and of the carry of their fsck records.
use omnect_os_init.Base.{◌≡◌, refl, arith, [], ◌∷◌, none, some, if◌then◌else◌, ok, err, ◌↔◌, ◌⊎◌}
use omnect_os_init.Base.Dict.{lookup}
use omnect_os_init.Base.Equality.{◌=?◌}
use omnect_os_init.Base.Exec.{◌>>=◌, map_error, on_second}
use omnect_os_init.Base.Text.{Text, lit}
use omnect_os_init.Base.Text.Numbers.{pos}
use omnect_os_init.Bootloader.Env.{available}
use omnect_os_init.Bootloader.Uboot.{Output}
use omnect_os_init.Error.{filesystem, fsck_requires_reboot, mount_failed, recovery_class}
use omnect_os_init.Filesystem.BootSequence.{
  fsck_partitions, persist_fsck_results, drain_fsck_env, Partitions, mount_core_partitions,
  mount_remaining_partitions, fsck_and_record,
}
use omnect_os_init.Filesystem.BootSequence.Carry.{
  HasState, saved, reported, drained, contains, persist_fsck_results-IsSaved,
}
use omnect_os_init.Filesystem.BootSequence.Drain.{
  drain_fsck_env-moves, drain_fsck_env-persist_fsck_results,
}
use omnect_os_init.Filesystem.BootSequence.Checks.{
  lookup-record_fsck_result, fsck_and_record-IsRecorded, IsRecorded,
}
use omnect_os_init.Filesystem.BootSequence.Stops.{
  IsStop, mount_core_partitions-fatal, mount_remaining_partitions-IsStop,
}
use omnect_os_init.Filesystem.ExitCode.{FsckExitCode, is_clean, is_reboot_required}
use omnect_os_init.Filesystem.Fsck.{
  uses_fsck_bitmask, evaluate, tolerate_failure, check_filesystem_lenient,
}
use omnect_os_init.Filesystem.Fsck.Verdicts.{
  IsReboot, evaluate_accepts, tolerate_failure-evaluate, check_filesystem_lenient-IsReboot,
}
use omnect_os_init.Filesystem.System.{System}
use omnect_os_init.Filesystem.Types.{ext4}
use omnect_os_init.Partition.Name.{
  PartitionName, root_current, data_part, etc, name_equality, name_discrete,
}
use omnect_os_init.Recovery.{fatal}
use omnect_os_init.Runtime.Ods.{OdsStatus, FsckStatus, new_status, record_fsck_result}
use omnect_os_init.Tests.Tools.{uboot, uboot_keeps, no_variables, uboot_takes}
use omnect_os_init.Tests.Mock.{Memory, empty_memory, memory_env, memory_keeps_records, fixed_system}

-- fsck corrected the file system and asks for a reboot.
abbrev reboot_code : FsckExitCode
reboot_code = record { bits = pos 3 }

abbrev reboot_output : Output
reboot_output = record { code = some (pos 3); stdout = lit "fixed"; stderr = []; status = [] }

abbrev status : FsckStatus
status = record { code = pos 3; output = lit "fixed" }

abbrev reported_data : OdsStatus
reported_data = record new_status { fsck = (data_part, status) ∷ [] }

abbrev rebooting_system : System
rebooting_system = fixed_system (ok tt) reboot_output []

abbrev rootfs : Text
rootfs = lit "/rootfs"

persist_example :
    HasState memory_env
      (persist_fsck_results memory_env rebooting_system reported_data rootfs
        (available empty_memory, tt)).0
      (λ b'.
        (q : PartitionName)
        → memory_keeps_records.stored b' q ≡ saved (lookup q reported_data.fsck) (ok none))
persist_example =
    persist_fsck_results-IsSaved memory_env memory_keeps_records rebooting_system reported_data
      rootfs empty_memory tt (unfold lookup in (refl, tt)) ((λ _. tt), tt)

abbrev stored_memory : Memory
stored_memory = (
  λ key. none,
  λ q.
      if data_part =? q
      then some (record { exit_code = reboot_code; output = lit "fixed" })
      else none,
)

drain_example :
    HasState memory_env (drain_fsck_env memory_env new_status (available stored_memory)).1 (λ b'.
      (q : PartitionName)
      → (lookup q (drain_fsck_env memory_env new_status (available stored_memory)).0.fsck
          ≡ (if contains q fsck_partitions then reported (ok (stored_memory.1 q)) none else none))
        × (memory_keeps_records.stored b' q ≡ (
            if contains q fsck_partitions
            then drained (ok (stored_memory.1 q))
            else ok (stored_memory.1 q))))
unfolding lookup
drain_example = drain_fsck_env-moves memory_env memory_keeps_records new_status stored_memory

-- The record is carried through the variables of the U-Boot environment.
carry_example :
    lookup data_part
      (drain_fsck_env uboot new_status
        (persist_fsck_results uboot rebooting_system reported_data rootfs
          (available no_variables, tt)).0).0.fsck
    ≡ some status
carry_example =
    drain_fsck_env-persist_fsck_results uboot uboot_keeps rebooting_system reported_data rootfs
      no_variables tt data_part status (unfold lookup in (refl, tt))
      ((λ _. uboot_takes data_part reboot_code (lit "fixed") (omega arith)), tt)
      (unfold lookup name_discrete in refl) (unfold is_clean in refl) (unfold name_discrete in refl)

record_example :
    lookup etc (record_fsck_result data_part reboot_code (lit "fixed") new_status).fsck ≡ none
unfolding lookup name_discrete is_clean
record_example = lookup-record_fsck_result data_part etc reboot_code (lit "fixed") new_status

evaluate_example :
    (evaluate (lit "/dev/sda7") ext4 reboot_code []
      ≡ ok (record { device = lit "/dev/sda7"; exit_code = reboot_code; output = [] }))
    ↔ ((reboot_code.bits ≡ pos 0) ⊎ (reboot_code.bits ≡ pos 1))
evaluate_example = evaluate_accepts (lit "/dev/sda7") ext4 reboot_code []

tolerate_example :
    tolerate_failure (evaluate (lit "/dev/sda7") ext4 reboot_code [])
    ≡ err (fsck_requires_reboot (lit "/dev/sda7") reboot_code [])
unfolding is_reboot_required uses_fsck_bitmask
tolerate_example = tolerate_failure-evaluate (lit "/dev/sda7") ext4 reboot_code []

lenient_example :
    IsReboot
      (lit "/dev/sda7")
      ext4
      (fsck_requires_reboot (lit "/dev/sda7") reboot_code (lit "fixed"))
unfolding ◌>>=◌ map_error is_clean is_reboot_required
lenient_example =
    check_filesystem_lenient-IsReboot rebooting_system (lit "/dev/sda7") ext4 tt
      (unfold check_filesystem_lenient lit in refl)

recording_example :
    IsRecorded data_part
      (fsck_requires_reboot (lit "/dev/sda7") reboot_code (lit "fixed"))
      (fsck_and_record rebooting_system (lit "/dev/sda7") data_part ext4 (new_status, tt)).1.0
    × (ext4 ≡ ext4)
unfolding ◌>>=◌ map_error is_clean is_reboot_required
recording_example =
    fsck_and_record-IsRecorded rebooting_system (lit "/dev/sda7") data_part ext4 new_status tt
      (unfold fsck_and_record check_filesystem_lenient lit in refl)

abbrev partitions : Partitions
partitions = (root_current, lit "/dev/sda2") ∷ (data_part, lit "/dev/sda7") ∷ []

abbrev failing_system : System
failing_system = fixed_system (err (lit "busy")) reboot_output []

core_example :
    recovery_class (filesystem (mount_failed (lit "/dev/sda2") rootfs (lit "busy"))) ≡ fatal
unfolding ◌>>=◌ map_error on_second
core_example =
    mount_core_partitions-fatal failing_system partitions rootfs new_status tt
      (unfold mount_core_partitions lookup name_discrete lit in refl)

remaining_example :
    IsStop
      (filesystem (fsck_requires_reboot (lit "/dev/sda7") reboot_code (lit "fixed")))
      (mount_remaining_partitions rebooting_system partitions rootfs (new_status, tt)).1.0
unfolding ◌>>=◌ map_error on_second check_filesystem_lenient is_clean is_reboot_required
remaining_example =
    mount_remaining_partitions-IsStop rebooting_system partitions rootfs new_status tt
      (unfold mount_remaining_partitions lookup name_discrete lit in refl)
