-- ===== src/Mode/FactoryReset/Preserve.antt =====
-- The preserve list of src/mode/factory_reset/config.rs.
pub mod Confined
use omnect_os_init.Base.{
  Bool, true, false, not, List, [], ◌∷◌, ◌++◌, Option, none, some, if◌then◌else◌, any, Result, ok,
  err, ◌>>=◌, ◌>>◌, map_err,
}
use omnect_os_init.Base.FilePath.{path_join, extension}
use omnect_os_init.Base.Text.{Text, lit, text_eq}
use omnect_os_init.Error.{
  IoError, ErrorKind, not_found, out_of_memory, other, FactoryResetError, missing_field,
  invalid_preserve,
}
use omnect_os_init.Filesystem.System.{System}
use omnect_os_init.Mode.FactoryReset.Config.{
  Json, FactoryResetConfig, NotAStringArray, missing, not_an_array, not_only_strings, string_array,
  validate_preserve_path,
}

unfoldable pub factory_reset_config_file : Text
unfolding lit
factory_reset_config_file = lit "etc/omnect/factory-reset.json"

unfoldable pub factory_reset_config_dir : Text
unfolding lit
factory_reset_config_dir = lit "etc/omnect/factory-reset.d"

unfoldable pub preserve_list_mandatory : Text
unfolding lit
preserve_list_mandatory = lit "/etc/omnect/factory-reset.d/"

unfoldable pub key_applications : Text
unfolding lit
key_applications = lit "applications"

unfoldable pub key_paths : Text
unfolding lit
key_paths = lit "paths"

-- An error of reading, with the same kind and a longer message.
read_failed : Text → IoError → FactoryResetError
read_failed what e =
    FactoryResetError.io (record {
      kind = e.kind;
      message = lit "Failed to read " ++ (what ++ (lit ": " ++ e.message));
    })

config_read_error : ErrorKind → Text → IoError → FactoryResetError
unfolding read_failed
config_read_error not_found file e = missing_field (file ++ lit " does not exist")
config_read_error out_of_memory file e = read_failed file e
config_read_error other file e = read_failed file e

key_error : Text → Text → NotAStringArray → FactoryResetError
key_error file key missing = missing_field (file ++ (lit ": no '" ++ (key ++ lit "' key")))
key_error file key not_an_array =
    invalid_preserve (file ++ (lit ": value for key '" ++ (key ++ lit "' must be an array")))
key_error file key not_only_strings =
    invalid_preserve
      (file ++ (lit ": value for key '" ++ (key ++ lit "' must contain only strings")))

paths_error : Text → NotAStringArray → FactoryResetError
paths_error file missing = missing_field (file ++ (lit ": no '" ++ (key_paths ++ lit "' key")))
paths_error file not_an_array =
    invalid_preserve (file ++ (lit ": '" ++ (key_paths ++ lit "' must be an array")))
paths_error file not_only_strings =
    invalid_preserve (file ++ (lit ": '" ++ (key_paths ++ lit "' must contain only strings")))

-- The paths of one source, all of them valid.
unfoldable pub validated : List Text → Result FactoryResetError (List Text)
validated [] = ok []
validated (path ∷ rest) = do validate_preserve_path path; more ← validated rest; ok (path ∷ more)

is_json : Text → Bool
unfolding extension text_eq lit
is_json path = elim (extension path) [ none ↦ false | some ext ↦ text_eq ext (lit "json") ]

module _ (J : Json) (S : System) where
  application_paths : Text → S.State → Result FactoryResetError (List Text)
  unfolding read_failed paths_error validated
  application_paths path s = do
    content ← map_err (read_failed path) (S.read_to_string path s)
    value ←
        map_err (λ e. invalid_preserve (path ++ (lit ": invalid JSON (" ++ (e ++ lit ")"))))
          (J.from_str content)
    paths ← map_err (paths_error path) (string_array J value key_paths)
    validated paths

  -- The first entry that cannot be read stops the collection.
  collect_entries :
      Text → List (Result IoError Text) → S.State → Result FactoryResetError (List Text)
  unfolding read_failed is_json application_paths
  collect_entries dir [] s = ok []
  collect_entries dir (err e ∷ rest) s = err (read_failed (lit "entry in " ++ dir) e)
  collect_entries dir (ok path ∷ rest) s =
      let below = collect_entries dir rest s in
      if is_json path
      then (do first ← application_paths path s; more ← below; ok (first ++ more))
      else below

  unfoldable pub collect_application_paths : Text → S.State → Result FactoryResetError (List Text)
  unfolding read_failed collect_entries
  collect_application_paths rootfs s =
      let dir = path_join rootfs factory_reset_config_dir in
      if S.exists dir s
      then (do
        entries ← map_err (read_failed dir) (S.read_dir dir s)
        collect_entries dir entries s)
      else ok []

  load_key_config : Text → S.State → Result FactoryResetError J.Value
  unfolding config_read_error
  load_key_config file s = do
    content ← map_err (λ (e : IoError). config_read_error e.kind file e) (S.read_to_string file s)
    map_err (λ e. invalid_preserve (lit "Failed to parse " ++ (file ++ (lit ": " ++ e))))
        (J.from_str content)

  key_config_if : Bool → Text → S.State → Result FactoryResetError (Option J.Value)
  unfolding load_key_config
  key_config_if false file s = ok none
  key_config_if true file s = do value ← load_key_config file s; ok (some value)

  -- There is a value for every key that names no application; the first clause is never reached.
  key_paths_of : Text → Text → Option J.Value → Result FactoryResetError (List Text)
  unfolding key_error validated
  key_paths_of file key none = ok []
  key_paths_of file key (some value) = do
    paths ← map_err (key_error file key) (string_array J value key)
    validated paths

  collect_keys :
      Text → Text → Option J.Value → List Text → S.State → Result FactoryResetError (List Text)
  unfolding collect_application_paths key_paths_of text_eq
  collect_keys rootfs file value [] s = ok []
  collect_keys rootfs file value (key ∷ keys) s = do
    first ←
        (if text_eq key key_applications
          then collect_application_paths rootfs s
          else key_paths_of file key value)
    more ← collect_keys rootfs file value keys s
    ok (first ++ more)

  unfoldable pub build_preserve_list :
      FactoryResetConfig → Text → S.State → Result FactoryResetError (List Text)
  unfolding key_config_if collect_keys text_eq
  build_preserve_list config rootfs s = do
    let file = path_join rootfs factory_reset_config_file
    value ← key_config_if (any (λ key. not (text_eq key key_applications)) config.preserve) file s
    paths ← collect_keys rootfs file value config.preserve s
    ok (preserve_list_mandatory ∷ paths)
