-- ===== src/Tests/Init.antt =====
-- Runs of a boot that validates an update and fails, and of the normal mode behind an fsck.
use omnect_os_init.Base.{◌≡◌, ◌≢◌, refl, arith, false, true, [], ◌∷◌, none, some, Result, ok, err}
use omnect_os_init.Base.Dict.{lookup, insert}
use omnect_os_init.Base.Exec.{◌>>=◌, map_error, on_second}
use omnect_os_init.Base.Text.{Text, lit, trim, trim_end, trim_start, is_whitespace}
use omnect_os_init.Base.Text.Numbers.{pos}
use omnect_os_init.Bootloader.Env.{available}
use omnect_os_init.Bootloader.Key.{
  validate_update, flash_mode, factory_reset, key_equality, key_discrete,
}
use omnect_os_init.Config.Cmdline.{Cmdline}
use omnect_os_init.Error.{
  InitramfsError, conflicting_triggers, filesystem, fsck_requires_reboot, recovery_class,
}
use omnect_os_init.Filesystem.BootSequence.{Partitions, mount_remaining_partitions}
use omnect_os_init.Filesystem.BootSequence.Carry.{AllTaken}
use omnect_os_init.Filesystem.BootSequence.Checks.{status_of}
use omnect_os_init.Filesystem.ExitCode.{is_mount_safe, FsckExitCode, is_clean, is_reboot_required}
use omnect_os_init.Filesystem.Fsck.{check_filesystem_lenient}
use omnect_os_init.Filesystem.System.{System}
use omnect_os_init.Init.Run.{rootfs_dir, Parts, begin_init, open_env, run_init}
use omnect_os_init.Init.Run.Rollback.{main-run_init}
use omnect_os_init.Main.{main, rebooting}
use omnect_os_init.Mode.FactoryReset.Config.{Json}
use omnect_os_init.Mode.FactoryReset.Reset.{WipeOps}
use omnect_os_init.Mode.Flash.Config.{Decoder}
use omnect_os_init.Mode.Normal.Run.{Outside, run_normal}
use omnect_os_init.Mode.Normal.Run.Reports.{next_report, run_normal-next_report}
use omnect_os_init.Partition.Device.{RootDevice}
use omnect_os_init.Partition.Name.{
  PartitionName, root_current, data_part, name_equality, name_discrete,
}
use omnect_os_init.Partition.Layout.{PartitionLayout, gpt}
use omnect_os_init.Recovery.{continue_degraded}
use omnect_os_init.Runtime.Ods.{new_status}
use omnect_os_init.Tests.Tools.{uboot, uboot_keeps, no_variables, uboot_takes}
use omnect_os_init.Tests.Mock.{
  Memory, empty_memory, with_value, memory_env, memory_keeps_values, fixed_system,
}

abbrev clean_system : System
clean_system =
    fixed_system (ok tt) (record { code = some (pos 0); stdout = []; stderr = []; status = [] })
      (lit "quiet")

abbrev no_decoder : Decoder
no_decoder = record { decode = λ t. err []; from_utf8 = λ b. none }

abbrev no_json : Json
no_json = record {
  Value = Unit {0};
  from_str = λ t. err [];
  get = λ v key. none;
  as_u64 = λ v. none;
  as_array = λ v. none;
  as_str = λ v. none;
  to_text = λ v. [];
}

abbrev wipes : WipeOps clean_system
wipes = record { wipe_random = λ device s. (ok tt, s); wipe_discard = λ device s. (ok tt, s) }

abbrev outside : Outside clean_system
outside = record {
  to_json = λ o. ok [];
  links_from_json = λ t. ok [];
  free_initramfs = λ s. s;
  persistent_var_log = false;
}

-- An update is to be validated, and mode 1 and a factory reset are asked for at once.
abbrev updated : Memory
updated =
    with_value validate_update (lit "1")
      (with_value flash_mode (lit "1") (with_value factory_reset (lit "{}") empty_memory))

abbrev device : RootDevice
device = record { base = lit "/dev/sda"; partition_sep = []; root_partition = lit "/dev/sda2" }

abbrev parts : Parts memory_env clean_system
parts = record {
  detect_root_device = λ cmdline s. (ok device, s);
  open_boot_env = λ s. (ok updated, s);
  resize = λ s. (ok tt, s);
  load_early_modules = λ rootfs s. s;
  run_flash = λ config t. (ok tt, t);
  is_release = true;
  table = gpt;
}

-- What the first steps give, or nothing.
abbrev started : Result InitramfsError (Cmdline × PartitionLayout) → Cmdline × PartitionLayout
started (ok p) = p
started (err e) = ([], record { partitions = []; device = device })

abbrev begun : Cmdline × PartitionLayout
begun = started (begin_init memory_env clean_system parts tt).0

conflict_is_fatal : recovery_class (InitramfsError.flash conflicting_triggers) ≢ continue_degraded
unfolding recovery_class
conflict_is_fatal same = cc

run_init_example :
    main none true
      (ok tt)
      (ok tt)
      (run_init memory_env clean_system parts wipes no_json no_decoder outside tt)
    ≡ rebooting
unfolding ◌>>=◌ map_error on_second lookup name_discrete begin_init check_filesystem_lenient
    is_mount_safe is_clean key_discrete
run_init_example =
    main-run_init memory_env memory_keeps_values clean_system parts wipes no_json no_decoder outside
      tt tt begun.0 begun.1 updated (InitramfsError.flash conflicting_triggers)
      (unfold begin_init rootfs_dir lit in refl) (unfold open_env rootfs_dir lit in refl)
      (unfold open_env rootfs_dir lit in refl) (unfold key_discrete lit in refl)
      (unfold run_init rootfs_dir lit trim trim_end trim_start is_whitespace in refl)
      conflict_is_fatal

-- fsck corrects the data partition and asks for a reboot.
abbrev reboot_code : FsckExitCode
reboot_code = record { bits = pos 3 }

abbrev rebooting_system : System
rebooting_system =
    fixed_system (ok tt)
      (record { code = some (pos 3); stdout = lit "fixed"; stderr = []; status = [] }) []

abbrev outside_rebooting : Outside rebooting_system
outside_rebooting = record {
  to_json = λ o. ok [];
  links_from_json = λ t. ok [];
  free_initramfs = λ s. s;
  persistent_var_log = false;
}

abbrev partitions : Partitions
partitions = (root_current, lit "/dev/sda2") ∷ (data_part, lit "/dev/sda7") ∷ []

abbrev reboot_error : InitramfsError
reboot_error = filesystem (fsck_requires_reboot (lit "/dev/sda7") reboot_code (lit "fixed"))

-- The U-Boot environment takes the record.
taken :
    AllTaken uboot uboot_keeps
      (mount_remaining_partitions rebooting_system partitions
        (lit "/rootfs")
        (new_status, tt)).1.0.fsck
unfolding mount_remaining_partitions lookup insert name_discrete lit ◌>>=◌ map_error on_second
    check_filesystem_lenient is_clean is_reboot_required
taken = ((λ _. uboot_takes data_part reboot_code (lit "fixed") (omega arith)), tt)

next_report_example :
    (name : PartitionName) × (device : Text) × (code : FsckExitCode) × (output : Text)
    × (reboot_error ≡ filesystem (fsck_requires_reboot device code output))
    × ((run_normal uboot rebooting_system outside_rebooting partitions
          (lit "/rootfs")
          []
          (available no_variables, (new_status, tt))).0
        ≡ err reboot_error)
    × (next_report uboot uboot_keeps rebooting_system outside_rebooting name
          (run_normal uboot rebooting_system outside_rebooting partitions
            (lit "/rootfs")
            []
            (available no_variables, (new_status, tt))).1
        ≡ some (status_of code output))
unfolding ◌>>=◌ map_error on_second check_filesystem_lenient is_clean is_reboot_required
    recovery_class
next_report_example =
    run_normal-next_report uboot uboot_keeps rebooting_system outside_rebooting partitions
      (lit "/rootfs") [] no_variables new_status tt reboot_error tt taken
      (unfold mount_remaining_partitions lookup name_discrete lit in refl) refl
