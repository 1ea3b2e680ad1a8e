-- ===== src/Mode/FactoryReset/Run/Touched.antt =====
-- What the status of a factory reset of src/mode/factory_reset/mod.rs says of the data.
use omnect_os_init.Base.{
  ◌≡◌, refl, Bool, true, false, List, [], ◌∷◌, Option, none, some, Result, ok, err, arith, subst,
  ok-injective,
}
use omnect_os_init.Base.Exec.{◌>>=◌, continue, Yields, Yields-pure, Yields-bind}
use omnect_os_init.Base.Text.{Text}
use omnect_os_init.Error.{InitramfsError}
use omnect_os_init.Filesystem.BootSequence.{Partitions}
use omnect_os_init.Filesystem.System.{System}
use omnect_os_init.Mode.FactoryReset.Backup.{RestoreResult, success, partial_failure}
use omnect_os_init.Mode.FactoryReset.Config.{Json, FactoryResetConfig, ResetMode}
use omnect_os_init.Mode.FactoryReset.Reset.{
  WipeOps, ReformatTargets, RetryReport, after_mount, run_destructive_phase,
}
use omnect_os_init.Mode.FactoryReset.Run.{
  wipe_partitions, resolved, with_note, wipe_and_rebuild, prepare, run_reset, reset_outcome,
  answered,
}
use omnect_os_init.Mode.Detect.{accepted}
use omnect_os_init.Mode.FactoryReset.Status.{
  Outcome, ResetFailureSignal, aborted_status, restored_status, wiped, exhausted_outcome,
  exhausted_status, destructive_phase_failure_status, apply_wipe_note,
}
use omnect_os_init.Partition.Name.{PartitionName}
use omnect_os_init.Runtime.Ods.{OdsStatus}

-- The status of a reset that wiped, with what it was to keep.
abbrev pub TellsWipe : List Text → Outcome → Type 0
TellsWipe paths outcome = (outcome.0.data_wiped ≡ true) × (outcome.0.paths ≡ paths)

restored_status-TellsWipe :
    (retried failed : List PartitionName) (r : RestoreResult) (paths : List Text)
    → TellsWipe paths (restored_status retried failed r paths, none)
unfolding restored_status wiped
restored_status-TellsWipe retried (p ∷ ps) success paths = (refl, refl)
restored_status-TellsWipe (p ∷ ps) [] success paths = (refl, refl)
restored_status-TellsWipe [] [] success paths = (refl, refl)
restored_status-TellsWipe retried failed (partial_failure c e) paths =
    unfold restored_status in ground arith

noted-TellsWipe :
    (note : Option Text) (outcome : Outcome) (paths : List Text)
    → TellsWipe paths outcome
    → TellsWipe paths (with_note note outcome)
unfolding with_note apply_wipe_note
noted-TellsWipe none (status, signal) paths h = h
noted-TellsWipe (some note) (status, signal) paths h = h

module _ (S : System) (W : WipeOps S) (J : Json) (var_log : Bool) where
  abbrev ResetState : Type 0
  ResetState = List Text × (OdsStatus × S.State)

  after_mount-TellsWipe :
      (rootfs : Text) (targets : ReformatTargets) (report : RetryReport)
      (signal : Option ResetFailureSignal)
      → Yields
          (TellsWipe targets.preserve_list)
          (after_mount S var_log rootfs targets report signal)
  unfolding after_mount exhausted_outcome exhausted_status
  after_mount-TellsWipe rootfs targets report (some signal) = record {
    of = λ t outcome same. subst (TellsWipe _) (ok-injective same) (refl, refl);
  }
  after_mount-TellsWipe rootfs targets report none = Yields-bind _ _ (λ r. Yields-bind _ _ (λ _.
      Yields-pure _
        (restored_status-TellsWipe report.retried report.reformat_failed r targets.preserve_list)))

  run_destructive_phase-TellsWipe :
      (partitions : Partitions) (rootfs : Text) (targets : ReformatTargets)
      → Yields
          (TellsWipe targets.preserve_list)
          (run_destructive_phase S var_log partitions rootfs targets)
  unfolding run_destructive_phase
  run_destructive_phase-TellsWipe partitions rootfs targets =
      Yields-bind _ _ (λ report. after_mount-TellsWipe rootfs targets report report.exhausted)

  resolved-TellsWipe :
      (paths : List Text) (p : Result InitramfsError Outcome × ResetState)
      → ((outcome : Outcome) → p.0 ≡ ok outcome → TellsWipe paths outcome)
      → TellsWipe paths (resolved S W J var_log paths p).0
  unfolding resolved destructive_phase_failure_status wiped
  resolved-TellsWipe paths (ok outcome, t) h = h outcome refl
  resolved-TellsWipe paths (err e, t) h = (refl, refl)

  -- The wipe and what follows always end in a status that tells of the wipe.
  wipe_and_rebuild-TellsWipe :
      (mode : ResetMode) (partitions : Partitions) (rootfs : Text) (targets : ReformatTargets)
      (t : ResetState)
      → (outcome : Outcome) × (u : ResetState) × (wipe_and_rebuild S W J var_log mode partitions
            rootfs targets t
          ≡ (ok outcome, u))
        × TellsWipe targets.preserve_list outcome
  unfolding wipe_and_rebuild
  wipe_and_rebuild-TellsWipe mode partitions rootfs targets (mounts, (o, s)) =
      let (note, s') =
        wipe_partitions S W mode (record { for_data = targets.data_dev; for_etc = targets.etc_dev })
          s in
      let rebuilt = run_destructive_phase S var_log partitions rootfs targets (mounts, (o, s')) in
      (
        _,
        _,
        refl,
        noted-TellsWipe note (resolved S W J var_log targets.preserve_list rebuilt).0
            targets.preserve_list
            (resolved-TellsWipe targets.preserve_list rebuilt
              ((run_destructive_phase-TellsWipe partitions rootfs targets).of (mounts, (o, s')))),
      )

  -- What a reset reports, by what became of the steps up to the wipe.
  abbrev pub Reports :
      Result InitramfsError ReformatTargets × ResetState → Outcome × (OdsStatus × S.State) → Type 0
  Reports (ok targets, u) p = TellsWipe targets.preserve_list p.0
  Reports (err e, u) p = (p.0.0.data_wiped ≡ false) × (p ≡ ((aborted_status e, none), u.1))

  answered-Reports :
      (mode : ResetMode) (partitions : Partitions) (rootfs : Text)
      (p : Result InitramfsError ReformatTargets × ResetState)
      → Reports p (
          answered S W J var_log
            (continue (wipe_and_rebuild S W J var_log mode partitions rootfs) p))
  unfolding answered aborted_status
  answered-Reports mode partitions rootfs (ok targets, u) =
      let (outcome, v, same, tells) = wipe_and_rebuild-TellsWipe mode partitions rootfs targets u in
      rw same tells
  answered-Reports mode partitions rootfs (err e, u) = (refl, refl)

  -- The status of an accepted reset says that the data was wiped exactly when every step before the
  -- wipe succeeded. Then its paths are the preserve list, whatever fails in or behind the wipe.
  -- Otherwise it is the status of an aborted reset, whose data was not wiped, no failure is to be
  -- persisted, and the file systems are as the failed preparation left them: no wipe and no
  -- reformat ran.
  pub reset_outcome-Reports :
      (partitions : Partitions) (rootfs : Text) (config : FactoryResetConfig)
      (t : OdsStatus × S.State)
      → Reports
          (prepare S W J var_log partitions rootfs config ([], t))
          (reset_outcome S W J var_log partitions rootfs (accepted config) t)
  unfolding reset_outcome run_reset ◌>>=◌
  reset_outcome-Reports partitions rootfs config t =
      answered-Reports config.mode partitions rootfs
        (prepare S W J var_log partitions rootfs config ([], t))
