-- ===== src/Tests/Boot.antt =====
-- Runs of the decisions of a boot: the environment, the boot mode, the extra boot arguments, the end.
use omnect_os_init.Base.{◌≡◌, refl, Bool, true, false, [], none, some, ok, err, inl, ◌↔◌, ◌⊎◌, ◌≤◌}
use omnect_os_init.Base.FilePath.{path_join}
use omnect_os_init.Base.Text.{Text, lit, trim, trim_end, trim_start, is_whitespace}
use omnect_os_init.Base.Text.Numbers.{pos}
use omnect_os_init.Bootloader.Env.{
  available, degraded, go_on, classify_boot_env, holds_marker, update_flags,
}
use omnect_os_init.Bootloader.Key.{factory_reset, flash_mode, key_equality, key_discrete}
use omnect_os_init.Bootloader.Truncate.{
  truncate_on_char_boundary, fitting, byte_len, truncate_on_char_boundary_longest,
}
use omnect_os_init.Error.{
  other, BootEnvError, env_file_not_found, InitramfsError, conflicting_triggers, degraded_boot,
  extra_boot_args_updated, non_utf8_path, resize_data, recovery_class,
}
use omnect_os_init.Error.Display.{boot_env_text, resize_text}
use omnect_os_init.Filesystem.BootSequence.{persist_fsck_results}
use omnect_os_init.Filesystem.Paths.{boot_mount}
use omnect_os_init.Filesystem.System.{System}
use omnect_os_init.Init.{detect_first_boot, apply_boot_env_decision}
use omnect_os_init.Init.Decision.{
  apply_boot_env_decision-opened, apply_boot_env_decision-core_error,
  apply_boot_env_decision-degraded,
}
use omnect_os_init.Init.FirstBoot.{ReadsFalse, AllUnset, detect_first_boot_iff}
use omnect_os_init.InitSetup.ExtraBootargs.{run_extra_bootargs, read_extra_bootargs}
use omnect_os_init.InitSetup.ExtraBootargs.Sync.{
  HoldsArgs, run_extra_bootargs-HoldsArgs, run_extra_bootargs-converges,
}
use omnect_os_init.InitSetup.ResizeData.{outcome_for, handle_result, handle_result-recovery_class}
use omnect_os_init.Main.{
  main, is_shell, handle_fatal_error, rebooting, AsksForReboot, main-release,
  handle_fatal_error-rebooting,
}
use omnect_os_init.Mode.Detect.{by_flag, detect_with}
use omnect_os_init.Mode.Detect.Table.{choice_of, refused, detect_with-choice, detect_with-refusal}
use omnect_os_init.Mode.FactoryReset.Config.{Json}
use omnect_os_init.Mode.Flash.Config.{Decoder, parse_mode}
use omnect_os_init.Mode.Normal.{marker_due, write_first_boot_marker}
use omnect_os_init.Mode.Normal.Marker.{detect_first_boot-write_first_boot_marker}
use omnect_os_init.Recovery.{continue_degraded, reboot_to_apply}
use omnect_os_init.Runtime.Ods.{OdsStatus, new_status}
use omnect_os_init.Tests.Mock.{
  Memory, empty_memory, with_value, memory_env, memory_keeps_values, fixed_system,
}

abbrev io_error : InitramfsError
io_error = InitramfsError.io (record { kind = other; message = [] })

release_example : is_shell (main none true (ok tt) (ok tt) (err io_error, false)) ≡ false
release_example = main-release none (ok tt) (ok tt) (err io_error, false)

rebooting_example :
    (handle_fatal_error none io_error true true ≡ rebooting)
    ↔ AsksForReboot (recovery_class io_error) true
rebooting_example = handle_fatal_error-rebooting io_error true true

-- A fresh device, with nothing in its environment.
first_boot_example :
    ((detect_first_boot memory_env (available empty_memory)).0 ≡ true)
    ↔ (ReadsFalse holds_marker (ok none) × AllUnset (λ key. ok none) update_flags)
first_boot_example = detect_first_boot_iff memory_env (λ key b. refl) empty_memory

abbrev plain_system : System
plain_system =
    fixed_system (ok tt) (record { code = some (pos 0); stdout = []; stderr = []; status = [] })
      (lit "quiet")

opened_example :
    let persisted =
      persist_fsck_results memory_env plain_system new_status
        (lit "/rootfs")
        (available empty_memory, tt) in
    let applied =
      apply_boot_env_decision memory_env plain_system
        (classify_boot_env memory_env (ok empty_memory) true)
        (err io_error)
        new_status
        (lit "/rootfs")
        tt in
    (applied.result ≡ err io_error)
    × (applied.env ≡ some persisted.0)
    × (applied.files ≡ persisted.1)
opened_example =
    apply_boot_env_decision-opened memory_env plain_system empty_memory true (err io_error)
      new_status (lit "/rootfs") tt

core_error_example :
    (apply_boot_env_decision memory_env plain_system
      (go_on (available empty_memory))
      (err io_error)
      new_status
      (lit "/rootfs")
      tt).result
    ≡ err io_error
core_error_example =
    apply_boot_env_decision-core_error memory_env plain_system (go_on (available empty_memory))
      io_error new_status (lit "/rootfs") tt

abbrev no_env : BootEnvError
no_env = env_file_not_found (lit "/rootfs/boot/EFI/BOOT/grubenv")

degraded_example :
    let applied = λ (is_release : Bool).
      apply_boot_env_decision memory_env plain_system
        (classify_boot_env memory_env (err no_env) is_release)
        (ok tt)
        new_status
        (lit "/rootfs")
        tt in
    ((applied true).result ≡ ok tt)
    × ((applied true).env ≡ some (degraded no_env))
    × ((applied true).status.degraded_boot ≡ some (record { reason = boot_env_text no_env }))
    × ((applied false).result ≡ err (degraded_boot no_env))
degraded_example =
    apply_boot_env_decision-degraded memory_env plain_system no_env new_status (lit "/rootfs") tt

-- Libraries for the detection that decode nothing.
abbrev no_decoder : Decoder
no_decoder = record { decode = λ t. err []; from_utf8 = λ b. none }

abbrev no_json : Json
no_json = record {
  Value = Unit {0};
  from_str = λ t. err [];
  get = λ v key. none;
  as_u64 = λ v. none;
  as_array = λ v. none;
  as_str = λ v. none;
  to_text = λ v. [];
}

-- Mode 1 and a factory reset at once.
abbrev conflicting : Memory
conflicting = with_value flash_mode (lit "1") (with_value factory_reset (lit "{}") empty_memory)

choice_example :
    choice_of (detect_with memory_env no_decoder no_json (some conflicting) false).0 ≡ refused
unfolding key_discrete parse_mode lit trim_end trim_start is_whitespace trim
choice_example =
    detect_with-choice memory_env memory_keeps_values no_decoder no_json false conflicting

refusal_example :
    (InitramfsError.flash conflicting_triggers ≡ InitramfsError.flash conflicting_triggers)
    × (b' : Memory) × ((detect_with memory_env no_decoder no_json (some conflicting) false).1
        ≡ some b')
    × ((flag' : Bool)
        → detect_with memory_env no_decoder no_json (some b') flag' ≡ (ok (by_flag flag'), some b'))
refusal_example =
    detect_with-refusal memory_env memory_keeps_values no_decoder no_json false conflicting
      (InitramfsError.flash conflicting_triggers)
      (unfold detect_with key_discrete lit trim_end trim_start is_whitespace in refl)

abbrev first_status : OdsStatus
first_status = record new_status { first_boot = true }

args_example :
    (args : Text) × (read_extra_bootargs plain_system (path_join (lit "/rootfs") boot_mount) tt
      ≡ ok args)
    × HoldsArgs memory_env
        (λ key b. refl)
        args
        (run_extra_bootargs memory_env plain_system
          (lit "/rootfs")
          tt
          (available empty_memory)
          first_status).1.0
unfolding trim_end trim_start
args_example =
    run_extra_bootargs-HoldsArgs memory_env (λ key b. refl) plain_system (lit "/rootfs") tt
      empty_memory first_status refl
      (inl (extra_boot_args_updated, unfold run_extra_bootargs key_discrete lit in refl))

converges_example :
    let step =
      run_extra_bootargs memory_env plain_system
        (lit "/rootfs")
        tt
        (available empty_memory)
        first_status in
    run_extra_bootargs memory_env plain_system (lit "/rootfs") tt step.1.0 first_status
    ≡ (ok tt, (step.1.0, first_status))
unfolding trim_end trim_start
converges_example =
    run_extra_bootargs-converges memory_env (λ key b. refl) plain_system (lit "/rootfs") tt
      empty_memory first_status first_status extra_boot_args_updated
      (unfold run_extra_bootargs key_discrete lit in refl)

resize_example :
    let (r, o') = handle_result (err (resize_data (non_utf8_path (lit "/dev/x")))) new_status in
    ((recovery_class (resize_data (non_utf8_path (lit "/dev/x"))) ≡ continue_degraded)
      × (r ≡ ok tt)
      × (o'.resize_data
          ≡ some (record {
            outcome = outcome_for (non_utf8_path (lit "/dev/x"));
            reason = resize_text (non_utf8_path (lit "/dev/x"));
          })))
    ⊎ ((recovery_class (resize_data (non_utf8_path (lit "/dev/x"))) ≡ reboot_to_apply)
        × (r ≡ err (resize_data (non_utf8_path (lit "/dev/x"))))
        × (o' ≡ new_status))
resize_example = handle_result-recovery_class (non_utf8_path (lit "/dev/x")) new_status

truncate_example :
    (truncate_on_char_boundary (lit "mkfs failed") 4 ≡ some (fitting (lit "mkfs failed") 4))
    × (byte_len (fitting (lit "mkfs failed") 4) ≤ 4)
truncate_example = truncate_on_char_boundary_longest (lit "mkfs failed") 4

-- A first boot without a failure is the last one.
marker_example :
    (detect_first_boot memory_env
      (write_first_boot_marker memory_env (marker_due first_status) (available empty_memory))).0
    ≡ false
marker_example =
    detect_first_boot-write_first_boot_marker memory_env memory_keeps_values first_status
      empty_memory
