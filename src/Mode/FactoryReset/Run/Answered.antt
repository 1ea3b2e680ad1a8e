-- ===== src/Mode/FactoryReset/Run/Answered.antt =====
-- The trigger of a factory reset behind `answer_trigger` of src/mode/factory_reset/mod.rs.
use omnect_os_init.Base.{◌≡◌, ◌≢◌, ◌∙◌, refl, Bool, true, false, Option, none, some, [], ◌++◌}
use omnect_os_init.Base.Text.{Text, lit}
use omnect_os_init.Bootloader.Truncate.{truncate_on_char_boundary}
use omnect_os_init.Partition.Name.{PartitionName, name_text}
use omnect_os_init.Bootloader.Env.{
  BootEnv, BootEnvState, available, degraded, save_factory_reset_failure, max_failure_reason_len,
}
use omnect_os_init.Bootloader.Key.{
  factory_reset, factory_reset_last_error, flash_mode, key_equality, key_discrete,
}
use omnect_os_init.Bootloader.Laws.{KeepsValues}
use omnect_os_init.Filesystem.BootSequence.{Partitions}
use omnect_os_init.Filesystem.BootSequence.Carry.{HasState}
use omnect_os_init.Filesystem.System.{System}
use omnect_os_init.Mode.Detect.{FactoryResetTrigger, detect_with, without_blank, and_then}
use omnect_os_init.Mode.Detect.Table.{reset, choice_of, choice_table, detect_with-choice}
use omnect_os_init.Mode.FactoryReset.Config.{Json}
use omnect_os_init.Mode.FactoryReset.Reset.{WipeOps}
use omnect_os_init.Mode.FactoryReset.Run.{
  answer_trigger, clear_trigger, persist_exhausted_signal, reset_outcome,
}
use omnect_os_init.Mode.FactoryReset.Status.{ResetFailureSignal}
use omnect_os_init.Mode.Flash.Config.{Decoder, FlashMode, mode1, mode2, mode3, parse_mode}
use omnect_os_init.Mode.Normal.Run.{Outside}
use omnect_os_init.Runtime.Ods.{OdsStatus}

no_reset_choice : (flag : Bool) (m : Option FlashMode) → choice_table flag m none ≢ reset
no_reset_choice flag (some mode1) h = cc
no_reset_choice true (some mode2) h = cc
no_reset_choice false (some mode2) h = cc
no_reset_choice true (some mode3) h = cc
no_reset_choice false (some mode3) h = cc
no_reset_choice true none h = cc
no_reset_choice false none h = cc

-- The text of `save_factory_reset_failure`.
abbrev pub failure_text : PartitionName → Text → Text
failure_text partition reason =
    let short : Text = elim (truncate_on_char_boundary reason max_failure_reason_len) [
      | none ↦ []
      | some t ↦ t
    ] in
    name_text partition ++ (lit ":" ++ short)

module _ (B : BootEnv) (K : KeepsValues B) where
  cleared : (b : B.State) → K.value (B.set_env factory_reset none b).1 factory_reset ≡ none
  unfolding key_discrete
  cleared b = rw (K.value-unset factory_reset factory_reset b) refl

  -- The backend takes the text that a failed reset leaves, so that it writes no other key.
  abbrev pub TakesSignal : Option ResetFailureSignal → Type 0
  TakesSignal none = Unit
  TakesSignal (some signal) = K.Takes (failure_text signal.partition signal.reason)

  persisted-cleared :
      (signal : Option ResetFailureSignal) (b : B.State)
      → TakesSignal signal
      → HasState B
          (persist_exhausted_signal B signal (available (B.set_env factory_reset none b).1))
          (λ b'. K.value b' factory_reset ≡ none)
  unfolding persist_exhausted_signal save_factory_reset_failure key_discrete
  persisted-cleared none b takes = cleared b
  persisted-cleared (some signal) b takes =
      K.value-other factory_reset_last_error factory_reset _ (B.set_env factory_reset none b).1
        takes refl
      ∙ cleared b

  module _ (S : System) (W : WipeOps S) (J : Json) (x : Outside S) (d : Decoder) where
    -- With an environment that keeps its values and takes the text that a failed reset leaves, after
    -- the answer to a trigger, whatever it was and whatever became of the reset, the detection of
    -- the next boot does not choose a factory reset, for both values of the enforce flag.
    pub detect_with-answer_trigger :
        (partitions : Partitions) (rootfs : Text) (trigger : FactoryResetTrigger) (b : B.State)
        (t : OdsStatus × S.State) (flag : Bool)
        → TakesSignal (reset_outcome S W J x.persistent_var_log partitions rootfs trigger t).0.1
        → HasState B
            (answer_trigger B S W J x partitions rootfs trigger (available b, t)).0
            (λ b'. choice_of (detect_with B d J (some b') flag).0 ≢ reset)
    unfolding answer_trigger clear_trigger
    detect_with-answer_trigger partitions rootfs trigger b t flag takes = chosen _ (
        persisted-cleared (reset_outcome S W J x.persistent_var_log partitions rootfs trigger t).0.1
          b takes)
      where
        chosen :
            (env : BootEnvState B)
            → HasState B env (λ b'. K.value b' factory_reset ≡ none)
            → HasState B env (λ b'. choice_of (detect_with B d J (some b') flag).0 ≢ reset)
        chosen (available b') none_left = λ same.
            no_reset_choice flag (and_then (without_blank (K.value b' flash_mode)) parse_mode)
              (rw (detect_with-choice B K d J flag b', none_left) at same)
        chosen (degraded e) none_left = none_left
