-- ===== src/Mode/Detect.antt =====
-- src/mode/mod.rs: the boot mode, from the boot environment and the enforce flag, with all flash modes
-- and the factory reset built in.
pub mod Table
use omnect_os_init.Base.{
  Bool, true, false, not, List, [], ◌∷◌, Option, none, some, if◌then◌else◌, Result, ok, err,
}
use omnect_os_init.Base.Text.{Text, trim, is_empty}
use omnect_os_init.Bootloader.Env.{BootEnv}
use omnect_os_init.Bootloader.Key.{
  BootEnvKey, factory_reset, flash_mode, flash_mode_devpath, flash_mode_url, flash_mode_url_sha256,
}
use omnect_os_init.Error.{BootEnvError, FactoryResetError, InitramfsError, conflicting_triggers}
use omnect_os_init.Error.Display.{boot_env_text}
use omnect_os_init.Mode.FactoryReset.Config.{Json, FactoryResetConfig, parse_config}
use omnect_os_init.Mode.Flash.Config.{
  FlashMode, mode1, mode2, mode3, FlashConfig, new_config, parse_mode, parse_devpath, parse_url,
  Decoder, EnvValue, unreadable, Url,
}

pub data FactoryResetTrigger : Type 0 where
  accepted : FactoryResetConfig → FactoryResetTrigger
  rejected : FactoryResetError → FactoryResetTrigger

pub data BootMode : Type 0 where
  normal : BootMode
  factory_reset_mode : FactoryResetTrigger → BootMode
  flash : FlashConfig → BootMode

-- A value that is not blank; a blank one is no trigger.
abbrev pub without_blank : Option Text → Option Text
without_blank none = none
without_blank (some v) = if is_empty (trim v) then none else some v

abbrev pub and_then : {A C : Type 0} → Option A → (A → Option C) → Option C
and_then none f = none
and_then (some a) f = f a

-- The enforce flag selects mode 2 over everything but mode 1.
unfoldable pub enforced : Bool → Option FlashMode → Option FlashMode
enforced flag none = if flag then some mode2 else none
enforced flag (some mode1) = some mode1
enforced flag (some mode2) = some mode2
enforced flag (some mode3) = if flag then some mode2 else some mode3

-- The mode of a value of `flash-mode`.
unfoldable pub selected : Bool → Option Text → Option FlashMode
unfolding enforced parse_mode
selected flag value = enforced flag (and_then (without_blank value) parse_mode)

-- `mode_2_config`
abbrev pub mode_2_config : FlashConfig
mode_2_config = new_config mode2

-- Without a readable environment only the enforce flag counts.
abbrev pub by_flag : Bool → BootMode
by_flag flag = if flag then flash mode_2_config else normal

-- The value of a key, or why it cannot be read.
abbrev or_unreadable :
    {T : Type 0} → (Option Text → EnvValue T) → Result BootEnvError (Option Text) → EnvValue T
or_unreadable read (ok value) = read value
or_unreadable read (err e) = unreadable (boot_env_text e)

module _ (B : BootEnv) where
  -- Failures are logged only.
  clear_keys : List BootEnvKey → B.State → B.State
  clear_keys [] b = b
  clear_keys (key ∷ keys) b = clear_keys keys (B.set_env key none b).1

  unfoldable pub clear_flash_triggers : B.State → B.State
  unfolding clear_keys
  clear_flash_triggers =
      clear_keys (flash_mode ∷ flash_mode_devpath ∷ flash_mode_url ∷ flash_mode_url_sha256 ∷ [])

  unfoldable pub clear_flash_and_reset_triggers : B.State → B.State
  unfolding clear_flash_triggers
  clear_flash_and_reset_triggers b = (B.set_env factory_reset none (clear_flash_triggers b)).1

  module _ (d : Decoder) (J : Json) where
    unfoldable pub build_flash_config : FlashMode → B.State → FlashConfig × B.State
    unfolding new_config parse_devpath parse_url boot_env_text
    build_flash_config mode1 b =
        let (r, b') = B.get_env flash_mode_devpath b in
        (record (new_config mode1) { devpath = or_unreadable parse_devpath r }, b')
    build_flash_config mode2 b = (mode_2_config, b)
    build_flash_config mode3 b =
        let (image, b') = B.get_env flash_mode_url b in
        let (sha256, b'') = B.get_env flash_mode_url_sha256 b' in
        (
          record (new_config mode3) {
            image_url = or_unreadable (parse_url d) image;
            sha256_url = or_unreadable (parse_url d) sha256;
          },
          b'',
        )

    abbrev pub Detected : Type 0
    Detected = Result InitramfsError BootMode × B.State

    start_flash : FlashMode → B.State → Detected
    unfolding build_flash_config
    start_flash mode b = let (config, b') = build_flash_config mode b in (ok (flash config), b')

    -- Mode 1, against a factory reset that is set too.
    refuse_or_flash : Option Text → B.State → Detected
    unfolding start_flash clear_flash_and_reset_triggers
    refuse_or_flash none b = start_flash mode1 b
    refuse_or_flash (some json) b =
        (err (InitramfsError.flash conflicting_triggers), clear_flash_and_reset_triggers b)

    flash_mode_1 : Result BootEnvError (Option Text) → B.State → Detected
    unfolding refuse_or_flash
    flash_mode_1 (err e) b = (ok normal, b)
    flash_mode_1 (ok v) b = refuse_or_flash (without_blank v) b

    -- Modes 2 and 3 read the factory reset for the log only.
    on_flash_mode : FlashMode → B.State → Detected
    unfolding start_flash flash_mode_1
    on_flash_mode mode1 b = let (r, b') = B.get_env factory_reset b in flash_mode_1 r b'
    on_flash_mode mode2 b = start_flash mode2 (B.get_env factory_reset b).1
    on_flash_mode mode3 b = start_flash mode3 (B.get_env factory_reset b).1

    trigger_of : Result FactoryResetError FactoryResetConfig → FactoryResetTrigger
    trigger_of (ok config) = accepted config
    trigger_of (err e) = rejected e

    reset_mode_of : Option Text → BootMode
    unfolding trigger_of parse_config
    reset_mode_of none = normal
    reset_mode_of (some json) = factory_reset_mode (trigger_of (parse_config J json))

    on_reset_value : Result BootEnvError (Option Text) → BootMode
    unfolding reset_mode_of
    on_reset_value (err e) = normal
    on_reset_value (ok v) = reset_mode_of (without_blank v)

    on_selected : Option FlashMode → B.State → Detected
    unfolding on_flash_mode on_reset_value
    on_selected (some mode) b = on_flash_mode mode b
    on_selected none b = let (r, b') = B.get_env factory_reset b in (ok (on_reset_value r), b')

    on_flash_value : Bool → Result BootEnvError (Option Text) → B.State → Detected
    unfolding selected on_selected
    on_flash_value flag (err e) b = (ok (by_flag flag), b)
    on_flash_value flag (ok v) b = on_selected (selected flag v) b

    -- `detect_with`; there is no state without an environment.
    unfoldable pub detect_with :
        Option B.State → Bool → Result InitramfsError BootMode × Option B.State
    unfolding on_flash_value
    detect_with none flag = (ok (by_flag flag), none)
    detect_with (some b) flag =
        let (r, b') = B.get_env flash_mode b in
        let (result, b'') = on_flash_value flag r b' in (result, some b'')
