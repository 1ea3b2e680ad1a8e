-- ===== src/Tests/Reset.antt =====
-- Runs of the factory reset.
use omnect_os_init.Base.{◌≢◌, refl, false, [], ◌∷◌, Option, none, some, ok, err, All}
use omnect_os_init.Base.Text.{Text, lit}
use omnect_os_init.Base.Text.Numbers.{pos}
use omnect_os_init.Bootloader.Env.{available}
use omnect_os_init.Bootloader.Key.{factory_reset, key_equality}
use omnect_os_init.Filesystem.BootSequence.{Partitions}
use omnect_os_init.Filesystem.BootSequence.Carry.{HasState}
use omnect_os_init.Filesystem.System.{System}
use omnect_os_init.Mode.Detect.{accepted, detect_with}
use omnect_os_init.Mode.Detect.Table.{reset, choice_of}
use omnect_os_init.Mode.FactoryReset.Config.{
  Json, FactoryResetConfig, mode1, string_array, validate_preserve_path,
}
use omnect_os_init.Mode.FactoryReset.Preserve.{
  build_preserve_list, key_applications, preserve_list_mandatory,
}
use omnect_os_init.Mode.FactoryReset.Preserve.Confined.{IsConfined, build_preserve_list-IsConfined}
use omnect_os_init.Mode.FactoryReset.Reset.{WipeOps}
use omnect_os_init.Mode.FactoryReset.Run.{prepare, reset_outcome, answer_trigger}
use omnect_os_init.Mode.FactoryReset.Run.Answered.{TakesSignal, detect_with-answer_trigger}
use omnect_os_init.Mode.FactoryReset.Status.{ResetFailureSignal}
use omnect_os_init.Mode.FactoryReset.Run.Touched.{Reports, reset_outcome-Reports}
use omnect_os_init.Mode.Flash.Config.{Decoder}
use omnect_os_init.Mode.Normal.Run.{Outside}
use omnect_os_init.Partition.Name.{root_current, data_part, etc}
use omnect_os_init.Runtime.Ods.{new_status}
use omnect_os_init.Tests.Mock.{
  empty_memory, with_value, memory_env, memory_keeps_values, fixed_system,
}

-- A library that takes a text for a value with one entry, the text.
abbrev text_json : Json
text_json = record {
  Value = Text;
  from_str = λ t. ok t;
  get = λ v key. some v;
  as_u64 = λ v. none;
  as_array = λ v. some (v ∷ []);
  as_str = λ v. some v;
  to_text = λ v. v;
}

abbrev clean_system : System
clean_system =
    fixed_system (ok tt) (record { code = some (pos 0); stdout = []; stderr = []; status = [] })
      (lit "/var/x")

abbrev config : FactoryResetConfig
config = record { mode = mode1; preserve = lit "network" ∷ [] }

preserve_example : All IsConfined (lit "/etc/omnect/factory-reset.d/" ∷ lit "/var/x" ∷ [])
preserve_example =
    build_preserve_list-IsConfined text_json clean_system config (lit "/rootfs") tt
      (lit "/etc/omnect/factory-reset.d/" ∷ lit "/var/x" ∷ [])
      (unfold build_preserve_list key_applications string_array validate_preserve_path
          preserve_list_mandatory lit in
        refl)

abbrev wipes : WipeOps clean_system
wipes = record { wipe_random = λ device s. (ok tt, s); wipe_discard = λ device s. (ok tt, s) }

abbrev outside : Outside clean_system
outside = record {
  to_json = λ o. ok [];
  links_from_json = λ t. ok [];
  free_initramfs = λ s. s;
  persistent_var_log = false;
}

abbrev partitions : Partitions
partitions =
    (root_current, lit "/dev/sda2") ∷ (etc, lit "/dev/sda5") ∷ (data_part, lit "/dev/sda7") ∷ []

reset_example :
    Reports clean_system wipes text_json false
      (prepare clean_system wipes text_json false partitions
        (lit "/rootfs")
        config
        ([], (new_status, tt)))
      (reset_outcome clean_system wipes text_json false partitions
        (lit "/rootfs")
        (accepted config)
        (new_status, tt))
reset_example =
    reset_outcome-Reports clean_system wipes text_json false partitions (lit "/rootfs") config
      (new_status, tt)

abbrev no_decoder : Decoder
no_decoder = record { decode = λ t. err []; from_utf8 = λ b. none }

-- The memory takes every text.
takes_any : (signal : Option ResetFailureSignal) → TakesSignal memory_env memory_keeps_values signal
takes_any none = tt
takes_any (some signal) = tt

answered_example :
    HasState memory_env
      (answer_trigger memory_env clean_system wipes text_json outside partitions
        (lit "/rootfs")
        (accepted config)
        (available (with_value factory_reset (lit "{}") empty_memory), (new_status, tt))).0
      (λ b'. choice_of (detect_with memory_env no_decoder text_json (some b') false).0 ≢ reset)
answered_example =
    detect_with-answer_trigger memory_env memory_keeps_values clean_system wipes text_json outside
      no_decoder partitions (lit "/rootfs") (accepted config)
      (with_value factory_reset (lit "{}") empty_memory) (new_status, tt) false (takes_any _)
