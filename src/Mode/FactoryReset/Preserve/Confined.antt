-- ===== src/Mode/FactoryReset/Preserve/Confined.antt =====
-- The preserve list of src/mode/factory_reset/config.rs stays inside the root file system.
use omnect_os_init.Base.{
  OkGives, OkGives-ok, OkGives-bind, ◌≡◌, refl, Bool, true, false, not, List, [], ◌∷◌, ◌++◌, Option,
  none, some, if◌then◌else◌, any, All, Result, ok, err, ◌>>=◌, map_err, arith, ◌==◌,
}
use omnect_os_init.Base.FilePath.{components, is_parent_dir, path_join}
use omnect_os_init.Base.Text.{Text, is_empty, trim_start, text_eq}
use omnect_os_init.Error.{IoError, FactoryResetError}
use omnect_os_init.Filesystem.System.{System}
use omnect_os_init.Mode.FactoryReset.Config.{
  Json, FactoryResetConfig, validate_preserve_path, string_array,
}
use omnect_os_init.Mode.FactoryReset.Preserve.{
  validated, application_paths, collect_entries, collect_application_paths, key_paths_of,
  read_failed, paths_error, key_error, key_paths, key_config_if, factory_reset_config_dir,
  factory_reset_config_file, collect_keys, build_preserve_list, is_json, key_applications,
  preserve_list_mandatory,
}

-- A path that names something, and has no `..`, behind its leading slashes.
abbrev pub IsConfined : Text → Type 0
IsConfined path =
    let relative = trim_start (λ c. c == b'/') path in
    (is_empty relative ≡ false) × (any is_parent_dir (components relative) ≡ false)

validate_preserve_path-IsConfined :
    (path : Text) → validate_preserve_path path ≡ ok tt → IsConfined path
unfolding validate_preserve_path
validate_preserve_path-IsConfined path h = ground arith

All-append : (xs ys : List Text) → All IsConfined xs → All IsConfined ys → All IsConfined (xs ++ ys)
All-append [] ys h k = k
All-append (x ∷ xs) ys h k = (h.0, All-append xs ys h.1 k)

-- What an operation gives, if it succeeds, is confined.
abbrev Gives : Result FactoryResetError (List Text) → Type 0
Gives m = OkGives (All IsConfined) m

Gives-err : {e : FactoryResetError} → Gives (err e)
Gives-err = record { each = λ ps same. cc }

Gives-append :
    (m n : Result FactoryResetError (List Text))
    → Gives m
    → Gives n
    → Gives (m >>= λ xs. n >>= λ ys. ok (xs ++ ys))
Gives-append m n h k =
    OkGives-bind m
      (λ xs p. OkGives-bind n (λ ys q. OkGives-ok (All-append xs ys (h.each xs p) (k.each ys q))))

Gives-if :
    {m n : Result FactoryResetError (List Text)} (b : Bool)
    → Gives m
    → Gives n
    → Gives (if b then m else n)
Gives-if true h k = h
Gives-if false h k = k

validated-Gives : (paths : List Text) → Gives (validated paths)
unfolding validated
validated-Gives [] = OkGives-ok tt
validated-Gives (path ∷ rest) = OkGives-bind (validate_preserve_path path) (λ _ valid.
    OkGives-bind (validated rest) (λ more found.
      OkGives-ok {a = path ∷ more}
        (validate_preserve_path-IsConfined path valid, (validated-Gives rest).each more found)))

module _ (J : Json) (S : System) where
  application_paths-Gives : (path : Text) (s : S.State) → Gives (application_paths J S path s)
  unfolding application_paths
  application_paths-Gives path s =
      OkGives-bind (map_err (read_failed path) (S.read_to_string path s)) (λ content _.
        OkGives-bind (map_err _ (J.from_str content)) (λ value _.
          OkGives-bind (map_err (paths_error path) (string_array J value key_paths))
            (λ paths _. validated-Gives paths)))

  collect_entries-Gives :
      (dir : Text) (entries : List (Result IoError Text)) (s : S.State)
      → Gives (collect_entries J S dir entries s)
  unfolding collect_entries
  collect_entries-Gives dir [] s = OkGives-ok tt
  collect_entries-Gives dir (err e ∷ rest) s = Gives-err
  collect_entries-Gives dir (ok path ∷ rest) s =
      Gives-if (is_json path)
        (Gives-append (application_paths J S path s) (collect_entries J S dir rest s)
          (application_paths-Gives path s) (collect_entries-Gives dir rest s))
        (collect_entries-Gives dir rest s)

  collect_application_paths-Gives :
      (rootfs : Text) (s : S.State) → Gives (collect_application_paths J S rootfs s)
  unfolding collect_application_paths
  collect_application_paths-Gives rootfs s =
      let dir = path_join rootfs factory_reset_config_dir in
      Gives-if (S.exists dir s)
        (OkGives-bind (map_err (read_failed dir) (S.read_dir dir s))
          (λ entries _. collect_entries-Gives dir entries s))
        (OkGives-ok tt)

  key_paths_of-Gives :
      (file key : Text) (value : Option J.Value) → Gives (key_paths_of J S file key value)
  unfolding key_paths_of
  key_paths_of-Gives file key none = OkGives-ok tt
  key_paths_of-Gives file key (some value) =
      OkGives-bind (map_err (key_error file key) (string_array J value key))
        (λ paths _. validated-Gives paths)

  collect_keys-Gives :
      (rootfs file : Text) (value : Option J.Value) (keys : List Text) (s : S.State)
      → Gives (collect_keys J S rootfs file value keys s)
  unfolding collect_keys
  collect_keys-Gives rootfs file value [] s = OkGives-ok tt
  collect_keys-Gives rootfs file value (key ∷ keys) s =
      Gives-append
        (if text_eq key key_applications
          then collect_application_paths J S rootfs s
          else key_paths_of J S file key value)
        (collect_keys J S rootfs file value keys s)
        (Gives-if (text_eq key key_applications) (collect_application_paths-Gives rootfs s)
          (key_paths_of-Gives file key value))
        (collect_keys-Gives rootfs file value keys s)

  build_preserve_list-Gives :
      (config : FactoryResetConfig) (rootfs : Text) (s : S.State)
      → Gives (build_preserve_list J S config rootfs s)
  unfolding build_preserve_list preserve_list_mandatory trim_start components
  build_preserve_list-Gives config rootfs s =
      let file = path_join rootfs factory_reset_config_file in
      let needed = any (λ key. not (text_eq key key_applications)) config.preserve in
      OkGives-bind (key_config_if J S needed file s) (λ value _.
        OkGives-bind (collect_keys J S rootfs file value config.preserve s) (λ paths found.
          OkGives-ok {a = preserve_list_mandatory ∷ paths} (
            (refl, refl),
            (collect_keys-Gives rootfs file value config.preserve s).each paths found,
          )))

  -- Every entry of a preserve list that is built names something below the root file system: behind
  -- its leading slashes it is not empty and has no `..`, wherever the list comes from.
  pub build_preserve_list-IsConfined :
      (config : FactoryResetConfig) (rootfs : Text) (s : S.State) (list : List Text)
      → build_preserve_list J S config rootfs s ≡ ok list
      → All IsConfined list
  build_preserve_list-IsConfined config rootfs s list =
      (build_preserve_list-Gives config rootfs s).each list
