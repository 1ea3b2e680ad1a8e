-- ===== src/Mode/Detect/Table.antt =====
-- The choice of the boot mode as a table, for an environment that keeps the values it is given.
use omnect_os_init.Base.{
  ◌≡◌, refl, sym, ap, ◌∙◌, Bool, true, false, Option, none, some, Result, ok, err, err-injective,
  Option-cases, inl, inr,
}
use omnect_os_init.Base.Text.{Text}
use omnect_os_init.Bootloader.Env.{BootEnv}
use omnect_os_init.Bootloader.Key.{
  factory_reset, flash_mode, flash_mode_devpath, flash_mode_url, flash_mode_url_sha256,
  key_equality, key_discrete,
}
use omnect_os_init.Bootloader.Laws.{KeepsValues}
use omnect_os_init.Error.{InitramfsError, conflicting_triggers}
use omnect_os_init.Mode.Detect.{
  BootMode, normal, factory_reset_mode, flash, without_blank, and_then, enforced, selected, by_flag,
  clear_keys, clear_flash_triggers, clear_flash_and_reset_triggers, build_flash_config, start_flash,
  refuse_or_flash, flash_mode_1, on_flash_mode, reset_mode_of, on_reset_value, on_selected,
  on_flash_value, detect_with,
}
use omnect_os_init.Mode.FactoryReset.Config.{Json}
use omnect_os_init.Mode.Flash.Config.{
  FlashMode, mode1, mode2, mode3, parse_mode, new_config, Decoder,
}

-- What is chosen, without the details of the configuration.
pub data Choice : Type 0 where
  boots reset refused : Choice
  flashes : FlashMode → Choice

abbrev pub choice_of : Result InitramfsError BootMode → Choice
choice_of (err e) = refused
choice_of (ok normal) = boots
choice_of (ok (factory_reset_mode t)) = reset
choice_of (ok (flash config)) = flashes config.mode

-- The table: the enforce flag and the mode that `flash-mode` names against the factory reset.
abbrev pub choice_table : Bool → Option FlashMode → Option Text → Choice
choice_table flag (some mode1) none = flashes mode1
choice_table flag (some mode1) (some json) = refused
choice_table true (some mode2) reset_value = flashes mode2
choice_table true (some mode3) reset_value = flashes mode2
choice_table true none reset_value = flashes mode2
choice_table false (some mode2) reset_value = flashes mode2
choice_table false (some mode3) reset_value = flashes mode3
choice_table false none none = boots
choice_table false none (some json) = reset

-- The part of the table behind the enforce flag.
abbrev selected_table : Option FlashMode → Option Text → Choice
selected_table = choice_table false

selected_table-enforced :
    (flag : Bool) (mode : Option FlashMode) (json : Option Text)
    → selected_table (enforced flag mode) json ≡ choice_table flag mode json
unfolding enforced
selected_table-enforced true none json = refl
selected_table-enforced true (some mode1) none = refl
selected_table-enforced true (some mode1) (some json) = refl
selected_table-enforced true (some mode2) json = refl
selected_table-enforced true (some mode3) json = refl
selected_table-enforced false none json = refl
selected_table-enforced false (some mode1) none = refl
selected_table-enforced false (some mode1) (some json) = refl
selected_table-enforced false (some mode2) json = refl
selected_table-enforced false (some mode3) json = refl

module _ (B : BootEnv) (K : KeepsValues B) (d : Decoder) (J : Json) where
  start_flash-choice :
      (mode : FlashMode) (b : B.State) → choice_of (start_flash B d J mode b).0 ≡ flashes mode
  unfolding start_flash build_flash_config new_config
  start_flash-choice mode1 b = refl
  start_flash-choice mode2 b = refl
  start_flash-choice mode3 b = refl

  on_selected-choice :
      (mode : Option FlashMode) (b : B.State)
      → choice_of (on_selected B d J mode b).0
        ≡ selected_table mode (without_blank (K.value b factory_reset))
  unfolding on_selected on_flash_mode flash_mode_1 refuse_or_flash on_reset_value reset_mode_of
  on_selected-choice (some mode1) b =
      rw (K.get-value factory_reset b)
        (elim (Option-cases (without_blank (K.value b factory_reset))) [
          | inl e ↦ rw e (start_flash-choice mode1 b)
          | inr (json, e) ↦ rw e refl
        ])
  on_selected-choice (some mode2) b = start_flash-choice mode2 (B.get_env factory_reset b).1
  on_selected-choice (some mode3) b = start_flash-choice mode3 (B.get_env factory_reset b).1
  on_selected-choice none b =
      rw (K.get-value factory_reset b)
        (elim (Option-cases (without_blank (K.value b factory_reset))) [
          | inl e ↦ rw e refl
          | inr (json, e) ↦ rw e refl
        ])

  -- With an environment that reads, the choice is the one of the table, for every value of the two
  -- triggers, where a blank value is none, and of the enforce flag: mode 1 is refused against a
  -- factory reset, modes 2 and 3 win over it, and the enforce flag wins over all but mode 1.
  pub detect_with-choice :
      (flag : Bool) (b : B.State)
      → choice_of (detect_with B d J (some b) flag).0
        ≡ choice_table flag
            (and_then (without_blank (K.value b flash_mode)) parse_mode)
            (without_blank (K.value b factory_reset))
  unfolding detect_with on_flash_value selected
  detect_with-choice flag b = rw (K.get-value flash_mode b) (
      on_selected-choice (selected flag (K.value b flash_mode)) b
      ∙ selected_table-enforced flag _ (without_blank (K.value b factory_reset)))

  cleared-flash_mode :
      (b : B.State) → K.value (clear_flash_and_reset_triggers B b) flash_mode ≡ none
  unfolding clear_flash_and_reset_triggers clear_flash_triggers clear_keys key_discrete
  cleared-flash_mode b =
      K.value-unset factory_reset flash_mode _
      ∙ K.value-unset flash_mode_url_sha256 flash_mode _
      ∙ K.value-unset flash_mode_url flash_mode _
      ∙ K.value-unset flash_mode_devpath flash_mode _
      ∙ K.value-unset flash_mode flash_mode b

  cleared-factory_reset :
      (b : B.State) → K.value (clear_flash_and_reset_triggers B b) factory_reset ≡ none
  unfolding clear_flash_and_reset_triggers key_discrete
  cleared-factory_reset b = K.value-unset factory_reset factory_reset _

  -- A refusal: the error, and the state it leaves.
  abbrev pub IsRefusal : B.State → Result InitramfsError BootMode × B.State → Type 0
  IsRefusal b (r, b') =
      (r ≡ err (InitramfsError.flash conflicting_triggers))
      × (b' ≡ clear_flash_and_reset_triggers B b)

  start_flash-ok :
      (mode : FlashMode) (b : B.State) {e : InitramfsError}
      → (start_flash B d J mode b).0 ≡ err e
      → ⊥
  unfolding start_flash
  start_flash-ok mode b h = cc

  refuse_or_flash-IsRefusal :
      (o : Option Text) (b : B.State) {e : InitramfsError}
      → (refuse_or_flash B d J o b).0 ≡ err e
      → IsRefusal b (refuse_or_flash B d J o b)
  unfolding refuse_or_flash
  refuse_or_flash-IsRefusal none b h = absurd (start_flash-ok mode1 b h)
  refuse_or_flash-IsRefusal (some json) b h = (refl, refl)

  on_selected-IsRefusal :
      (mode : Option FlashMode) (b : B.State) {e : InitramfsError}
      → (on_selected B d J mode b).0 ≡ err e
      → IsRefusal b (on_selected B d J mode b)
  unfolding on_selected on_flash_mode flash_mode_1
  on_selected-IsRefusal none b = λ h. cc
  on_selected-IsRefusal (some mode1) b =
      rw (K.get-value factory_reset b)
        (refuse_or_flash-IsRefusal (without_blank (K.value b factory_reset)) b)
  on_selected-IsRefusal (some mode2) b =
      λ h. absurd (start_flash-ok mode2 (B.get_env factory_reset b).1 h)
  on_selected-IsRefusal (some mode3) b =
      λ h. absurd (start_flash-ok mode3 (B.get_env factory_reset b).1 h)

  -- With both triggers unset only the enforce flag counts.
  detect_with-unset :
      (flag : Bool) (b : B.State)
      → K.value b flash_mode ≡ none
      → K.value b factory_reset ≡ none
      → detect_with B d J (some b) flag ≡ (ok (by_flag flag), some b)
  unfolding detect_with on_flash_value on_selected selected enforced on_flash_mode start_flash
      build_flash_config on_reset_value reset_mode_of
  detect_with-unset true b m r = rw (K.get-value flash_mode b, m, K.get-value factory_reset b) refl
  detect_with-unset false b m r =
      rw (K.get-value flash_mode b, m, K.get-value factory_reset b, r) refl

  -- A refusal is not repeated: the only error of the detection is that of conflicting triggers, and
  -- it clears them, so that the next boot starts as with no trigger at all, in the normal mode
  -- unless the enforce flag asks for mode 2.
  pub detect_with-refusal :
      (flag : Bool) (b : B.State) (e : InitramfsError)
      → (detect_with B d J (some b) flag).0 ≡ err e
      → (e ≡ InitramfsError.flash conflicting_triggers)
        × (b' : B.State) × ((detect_with B d J (some b) flag).1 ≡ some b')
        × ((flag' : Bool) → detect_with B d J (some b') flag' ≡ (ok (by_flag flag'), some b'))
  unfolding detect_with on_flash_value
  detect_with-refusal flag b e = rw (K.get-value flash_mode b) λ h.
      let refusal = on_selected-IsRefusal (selected flag (K.value b flash_mode)) b h in
      (
        err-injective (sym h ∙ refusal.0),
        clear_flash_and_reset_triggers B b,
        ap some refusal.1,
        λ flag'.
            detect_with-unset flag' (clear_flash_and_reset_triggers B b) (cleared-flash_mode b)
              (cleared-factory_reset b),
      )
