-- ===== src/Mode/FactoryReset/Run.antt =====
-- The run of src/mode/factory_reset/mod.rs: the wipe, the whole sequence, and the answer to the
-- trigger.
pub mod Touched
pub mod Answered
use omnect_os_init.Base.{
  Bool, true, false, List, [], ◌∷◌, ◌++◌, Option, none, some, Result, ok, err, map,
}
use omnect_os_init.Base.Dict.{lookup}
use omnect_os_init.Base.Exec.{Exec, pure, raise, lift, map_error, on_second, ◌>>◌, ◌>>=◌}
use omnect_os_init.Base.Text.{Text, lit, join}
use omnect_os_init.Bootloader.Env.{
  BootEnv, BootEnvState, available, degraded, save_factory_reset_failure,
}
use omnect_os_init.Bootloader.Key.{BootEnvKey}
use omnect_os_init.Config.Cmdline.{Cmdline}
use omnect_os_init.Error.{FactoryResetError, mount_error, InitramfsError, factory_reset}
use omnect_os_init.Error.Display.{factory_reset_text}
use omnect_os_init.Filesystem.BootSequence.{Partitions}
use omnect_os_init.Filesystem.System.{System}
use omnect_os_init.Mode.Detect.{FactoryResetTrigger, accepted, rejected}
use omnect_os_init.Mode.FactoryReset.Backup.{backup_all, context_separator}
use omnect_os_init.Mode.FactoryReset.Config.{
  Json, FactoryResetConfig, ResetMode, mode1, mode2, mode3,
}
use omnect_os_init.Mode.FactoryReset.Preserve.{build_preserve_list}
use omnect_os_init.Mode.FactoryReset.Reset.{
  WipeOps, WipeTargets, ReformatTargets, Reset, on_files, unmount_all, or_unmount,
  factory_reset_mount, run_destructive_phase, factory_reset_backup_dir,
}
use omnect_os_init.Mode.FactoryReset.Status.{
  ResetFailureSignal, Outcome, aborted_status, destructive_phase_failure_status, apply_wipe_note,
}
use omnect_os_init.Mode.Normal.Run.{Outside, Boot, run_normal}
use omnect_os_init.Partition.Name.{PartitionName, etc, data_part, name_text, name_equality}
use omnect_os_init.Runtime.Ods.{FactoryResetStatus, OdsStatus, set_factory_reset}

with_note : Option Text → Outcome → Outcome
unfolding apply_wipe_note
with_note note (status, signal) = (apply_wipe_note status note, signal)

module _ (S : System) (W : WipeOps S) where
  -- The wipe of a mode; mode 1 has none.
  wipe_of : ResetMode → Option (Text → Exec FactoryResetError S.State (Unit {0}))
  wipe_of mode1 = none
  wipe_of mode2 = some W.wipe_random
  wipe_of mode3 = some W.wipe_discard

  noted :
      PartitionName
      → List Text
      → Result FactoryResetError (Unit {0}) × S.State
      → List Text × S.State
  unfolding name_text factory_reset_text
  noted p notes (ok _, s) = (notes, s)
  noted p notes (err e, s) = (notes ++ (name_text p ++ (lit ": " ++ factory_reset_text e)) ∷ [], s)

  note_of : List Text → Option Text
  unfolding join context_separator
  note_of [] = none
  note_of (note ∷ notes) = some (join context_separator (note ∷ notes))

  -- A failure on one device does not skip the other.
  unfoldable pub wipe_partitions : ResetMode → WipeTargets → S.State → Option Text × S.State
  unfolding wipe_of noted note_of
  wipe_partitions mode targets s = elim (wipe_of mode) [
    | none ↦ (none, s)
    | some wipe ↦
        let (notes, s') = noted etc [] (wipe targets.for_etc s) in
        let (notes', s'') = noted data_part notes (wipe targets.for_data s') in
        (note_of notes', s'')
  ]

  module _ (J : Json) (persistent_var_log : Bool) where
    -- A failure behind the wipe is an outcome, never an error.
    resolved :
        List Text
        → Result InitramfsError Outcome × (List Text × (OdsStatus × S.State))
        → Outcome × (List Text × (OdsStatus × S.State))
    unfolding destructive_phase_failure_status
    resolved paths (ok outcome, t) = (outcome, t)
    resolved paths (err e, t) = ((destructive_phase_failure_status e paths, none), t)

    unfoldable pub wipe_and_rebuild :
        ResetMode → Partitions → Text → ReformatTargets → Reset S Outcome
    unfolding wipe_partitions resolved with_note run_destructive_phase
    wipe_and_rebuild mode partitions rootfs targets (mounts, (o, s)) =
        let wipe_targets : WipeTargets = record {
          for_data = targets.data_dev;
          for_etc = targets.etc_dev;
        } in
        let (note, s') = wipe_partitions mode wipe_targets s in
        let (outcome, t) = resolved targets.preserve_list (
          run_destructive_phase S persistent_var_log partitions rootfs targets (mounts, (o, s'))) in
        (ok (with_note note outcome), t)

    device_of : Partitions → PartitionName → Text → Result InitramfsError Text
    unfolding lookup
    device_of partitions p message = elim (lookup p partitions) [
      | none ↦ err (factory_reset (mount_error message))
      | some dev ↦ ok dev
    ]

    preserve_step : FactoryResetConfig → Text → Reset S (List Text)
    unfolding build_preserve_list or_unmount
    preserve_step config rootfs t =
        or_unmount S (
          on_files S (map_error factory_reset (λ s. (build_preserve_list J S config rootfs s, s)))
            t)

    -- The reset up to the wipe. Whatever fails here leaves the partitions as they are.
    unfoldable pub prepare : Partitions → Text → FactoryResetConfig → Reset S ReformatTargets
    unfolding factory_reset_mount preserve_step backup_all or_unmount unmount_all device_of
    prepare partitions rootfs config = do
      (λ t. or_unmount S (factory_reset_mount S persistent_var_log partitions rootfs t))
      preserve_list ← preserve_step config rootfs
      backed_up ← (λ t.
          or_unmount S (on_files S (backup_all S rootfs preserve_list factory_reset_backup_dir) t))
      unmount_all S
      data_dev ← lift (device_of partitions data_part (lit "data partition not found in layout"))
      etc_dev ← lift (device_of partitions etc (lit "etc partition not found in layout"))
      pure (record {
        data_dev = data_dev;
        etc_dev = etc_dev;
        preserve_list = preserve_list;
        backed_up = backed_up;
        backup_dir = factory_reset_backup_dir;
      })

    unfoldable pub run_reset : Partitions → Text → FactoryResetConfig → Reset S Outcome
    unfolding prepare wipe_and_rebuild
    run_reset partitions rootfs config = do
      targets ← prepare partitions rootfs config
      wipe_and_rebuild config.mode partitions rootfs targets

    unfoldable pub answered :
        Result InitramfsError Outcome × (List Text × (OdsStatus × S.State))
        → Outcome × (OdsStatus × S.State)
    unfolding aborted_status
    answered (ok outcome, (mounts, t)) = (outcome, t)
    answered (err e, (mounts, t)) = ((aborted_status e, none), t)

    -- The tracked mounts begin empty; a trigger that was rejected starts no reset.
    unfoldable pub reset_outcome :
        Partitions
        → Text
        → FactoryResetTrigger
        → OdsStatus × S.State
        → Outcome × (OdsStatus × S.State)
    unfolding answered aborted_status run_reset
    reset_outcome partitions rootfs (rejected e) t = ((aborted_status (factory_reset e), none), t)
    reset_outcome partitions rootfs (accepted config) t =
        answered (run_reset partitions rootfs config ([], t))

module _ (B : BootEnv) where
  -- Failures of the environment are logged only.
  unfoldable pub clear_trigger : BootEnvState B → BootEnvState B
  clear_trigger (available b) = available (B.set_env BootEnvKey.factory_reset none b).1
  clear_trigger (degraded e) = degraded e

  unfoldable pub persist_exhausted_signal :
      Option ResetFailureSignal → BootEnvState B → BootEnvState B
  unfolding save_factory_reset_failure
  persist_exhausted_signal none env = env
  persist_exhausted_signal (some signal) (degraded e) = degraded e
  persist_exhausted_signal (some signal) (available b) =
      available (save_factory_reset_failure B signal.partition signal.reason b).1

  module _ (S : System) (W : WipeOps S) (J : Json) (x : Outside S) where
    unfoldable pub answer_trigger :
        Partitions
        → Text
        → FactoryResetTrigger
        → BootEnvState B × (OdsStatus × S.State)
        → BootEnvState B × (OdsStatus × S.State)
    unfolding clear_trigger persist_exhausted_signal reset_outcome
    answer_trigger partitions rootfs trigger (env, t) =
        let ((status, signal), (o, s)) =
          reset_outcome S W J x.persistent_var_log partitions rootfs trigger t in
        (persist_exhausted_signal signal (clear_trigger env), (set_factory_reset status o, s))

    -- `run`: the normal boot follows whatever became of the reset.
    unfoldable pub run_factory_reset :
        Partitions → Text → Cmdline → FactoryResetTrigger → Boot B S (Unit {0})
    unfolding answer_trigger run_normal
    run_factory_reset partitions rootfs cmdline trigger t =
        run_normal B S x partitions rootfs cmdline (answer_trigger partitions rootfs trigger t)
