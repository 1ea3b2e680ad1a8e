-- ===== src/Mode/FactoryReset/Config.antt =====
-- src/mode/factory_reset/config.rs: the trigger of a factory reset, over the values of `serde_json`.
use omnect_os_init.Base.{
  ℕ, Bool, true, false, List, [], ◌∷◌, ◌++◌, Option, none, some, if◌then◌else◌, Result, ok, err,
  ◌>>=◌, map_err, ok_or, ◌==◌, leb, any,
}
use omnect_os_init.Base.FilePath.{Component, parent_dir, components}
use omnect_os_init.Base.Text.{Text, lit, is_empty, trim_start}
use omnect_os_init.Base.Text.Numbers.{decimal, u32_max}
use omnect_os_init.Error.{FactoryResetError, invalid_config, missing_field, invalid_preserve}

-- `serde_json`: parsing, and the accessors and the text of a value.
pub record Json : Type 1 where
  pub Value : Type 0
  pub from_str : Text → Result Text Value
  pub get : Value → Text → Option Value
  pub as_u64 : Value → Option ℕ
  pub as_array : Value → Option (List Value)
  pub as_str : Value → Option Text
  pub to_text : Value → Text

pub data ResetMode : Type 0 where
  mode1 mode2 mode3 : ResetMode

pub record FactoryResetConfig : Type 0 where
  pub mode : ResetMode
  pub preserve : List Text

-- `ResetMode::try_from`
unfoldable pub reset_mode : ℕ → Result Text ResetMode
unfolding lit decimal
reset_mode value =
    if value == 1
    then ok mode1
    else if value == 2
    then ok mode2
    else if value == 3
    then ok mode3
    else err (lit "factory reset mode " ++ (decimal value ++ lit " is not supported"))

pub data NotAStringArray : Type 0 where
  missing not_an_array not_only_strings : NotAStringArray

-- `collect` into an option of a list
abbrev pub all_some : {A : Type 0} → List (Option A) → Option (List A)
all_some [] = some []
all_some (none ∷ os) = none
all_some (some a ∷ os) = elim (all_some os) [ none ↦ none | some xs ↦ some (a ∷ xs) ]

preserve_error : NotAStringArray → FactoryResetError
unfolding lit
preserve_error missing = missing_field (lit "trigger has no 'preserve' key")
preserve_error not_an_array = invalid_preserve (lit "'preserve' must be an array")
preserve_error not_only_strings = invalid_preserve (lit "'preserve' must contain only strings")

module _ (J : Json) where
  abbrev strings : List J.Value → List (Option Text)
  strings [] = []
  strings (v ∷ vs) = J.as_str v ∷ strings vs

  unfoldable pub string_array : J.Value → Text → Result NotAStringArray (List Text)
  string_array value key = do
    found ← ok_or (J.get value key) missing
    array ← ok_or (J.as_array found) not_an_array
    ok_or (all_some (strings array)) not_only_strings

  number_error : J.Value → Text
  unfolding lit
  number_error value = lit "'mode' is not a supported mode number: " ++ J.to_text value

  -- The number of a mode as a u32.
  mode_number : Option J.Value → Result Text ℕ
  unfolding lit number_error
  mode_number none = err (lit "the trigger has no 'mode'")
  mode_number (some value) = elim (J.as_u64 value) [
    | none ↦ err (number_error value)
    | some n ↦ if leb n u32_max then ok n else err (number_error value)
  ]

  -- `FactoryResetConfig::parse`
  unfoldable pub parse_config : Text → Result FactoryResetError FactoryResetConfig
  unfolding mode_number reset_mode string_array preserve_error lit
  parse_config json = do
    trigger ←
        map_err (λ e. invalid_config (lit "Failed to parse factory-reset JSON: " ++ e))
          (J.from_str json)
    number ← map_err invalid_config (mode_number (J.get trigger (lit "mode")))
    mode ← map_err invalid_config (reset_mode number)
    preserve ← map_err preserve_error (string_array trigger (lit "preserve"))
    ok (record { mode = mode; preserve = preserve })

abbrev is_parent : Component → Bool
is_parent parent_dir = true
is_parent _ = false

abbrev is_slash : ℕ → Bool
is_slash c = c == b'/'

unfoldable pub validate_preserve_path : Text → Result FactoryResetError (Unit {0})
unfolding trim_start components lit
validate_preserve_path path =
    let relative = trim_start is_slash path in
    if is_empty relative
    then err (invalid_preserve (lit "preserve path must not be empty"))
    else if any is_parent (components relative)
    then err (
        invalid_preserve
          (lit "preserve path '" ++ (path ++ lit "' contains '..' and would escape rootfs")))
    else ok tt
