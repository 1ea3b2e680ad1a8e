-- ===== src/Runtime/FsLink.antt =====
-- src/runtime/fs_link.rs: the links that configuration files ask for. The parser of JSON is a
-- parameter.
use omnect_os_init.Base.{
  ℕ, Bool, true, false, not, ◌&&◌, ◌||◌, List, [], ◌∷◌, ◌++◌, Option, none, some, ◌==◌, ltb,
  if◌then◌else◌, any, Result, ok, err,
}
use omnect_os_init.Base.Exec.{Exec, pure, raise, lift, map_error, ◌>>◌, ◌>>=◌}
use omnect_os_init.Base.FilePath.{
  components, path_join, parent, extension, is_absolute, is_parent_dir,
}
use omnect_os_init.Base.Text.{
  Text, lit, text_eq, is_empty, trim, trim_start, starts_with, split_whitespace,
}
use omnect_os_init.Bootloader.Grub.{lines}
use omnect_os_init.Error.{IoError, InitramfsError}
use omnect_os_init.Filesystem.System.{System}
use omnect_os_init.Runtime.OdsFiles.{Files, io_other}

pub record LinkEntry : Type 0 where
  pub target : Text
  pub link : Text

unfoldable pub fs_link_config_path : Text
unfolding lit
fs_link_config_path = lit "etc/omnect/fs-link.json"

unfoldable pub fs_link_config_path_d : Text
unfolding lit
fs_link_config_path_d = lit "etc/omnect/fs-link.d"

unfoldable pub fs_link_list_path : Text
unfolding lit
fs_link_list_path = lit "etc/omnect/create-fs-links.txt"

abbrev is_slash : ℕ → Bool
is_slash c = c == b'/'

link_of_fields : Text → List Text → Result InitramfsError LinkEntry
unfolding trim_start
link_of_fields line (target ∷ link ∷ _) =
    ok (record { target = target; link = trim_start is_slash link })
link_of_fields line _ = err (
    io_other
      (fs_link_list_path ++ (lit ": expected \"<target> <link>\", got \"" ++ (line ++ lit "\""))))

-- The entry of a line that is trimmed; blank lines and comments have none.
link_of_line : Text → Result InitramfsError (Option LinkEntry)
unfolding link_of_fields split_whitespace starts_with
link_of_line line =
    if is_empty line || starts_with (lit "#") line
    then ok none
    else elim (link_of_fields line (split_whitespace line)) [
      | err e ↦ err e
      | ok entry ↦ ok (some entry)
    ]

abbrev cons_entry :
    Option LinkEntry
    → Result InitramfsError (List LinkEntry)
    → Result InitramfsError (List LinkEntry)
cons_entry none rest = rest
cons_entry (some entry) (ok entries) = ok (entry ∷ entries)
cons_entry (some entry) (err e) = err e

-- The first line with an error decides.
links_of_lines : List Text → Result InitramfsError (List LinkEntry)
unfolding link_of_line trim
links_of_lines [] = ok []
links_of_lines (line ∷ rest) =
    let below = links_of_lines rest in
    elim (link_of_line (trim line)) [ err e ↦ err e | ok entry ↦ cons_entry entry below ]

unfoldable pub parse_link_list : Text → Result InitramfsError (List LinkEntry)
unfolding links_of_lines lines
parse_link_list content = links_of_lines (lines content)

unfoldable pub validate_relative_path : Text → Result InitramfsError (Unit {0})
unfolding is_absolute components
validate_relative_path path =
    if is_absolute path
    then err (io_other (lit "fs-link path must be relative, got absolute path: " ++ path))
    else if any is_parent_dir (components path)
    then err (io_other (lit "fs-link path must not contain '..': " ++ path))
    else ok tt

-- The order of the paths, which share their directory.
text_le : Text → Text → Bool
text_le [] t = true
text_le (c ∷ s) [] = false
text_le (c ∷ s) (d ∷ t) = ltb c d || (c == d && text_le s t)

insert_sorted : Text → List Text → List Text
unfolding text_le
insert_sorted path [] = path ∷ []
insert_sorted path (p ∷ ps) = if text_le path p then path ∷ p ∷ ps else p ∷ insert_sorted path ps

unfoldable pub sort_paths : List Text → List Text
unfolding insert_sorted
sort_paths [] = []
sort_paths (p ∷ ps) = insert_sorted p (sort_paths ps)

is_json : Text → Bool
unfolding extension text_eq lit
is_json path = elim (extension path) [ none ↦ false | some ext ↦ text_eq ext (lit "json") ]

-- Entries that cannot be read are logged and left out.
json_paths : List (Result IoError Text) → List Text
unfolding is_json
json_paths [] = []
json_paths (err e ∷ rest) = json_paths rest
json_paths (ok path ∷ rest) =
    let below = json_paths rest in if is_json path then path ∷ below else below

module _ (S : System) where
  io : {A : Type 0} → Exec IoError S.State A → Files S A
  io m = map_error InitramfsError.io m

  remove_existing : Text → Files S (Unit {0})
  remove_existing path s =
      if S.exists path s || S.is_symlink path s
      then (if not (S.is_symlink path s) && S.is_dir path s
          then (err (io_other (lit "Cannot replace directory with symlink: " ++ path)), s)
          else map_error
              (λ (e : IoError).
                io_other
                  (lit "Failed to remove existing file " ++ (path ++ (lit ": " ++ e.message))))
              (S.remove_file path) s)
      else (ok tt, s)

  create_parent : Option Text → Files S (Unit {0})
  unfolding io
  create_parent none s = (ok tt, s)
  create_parent (some dir) s = if S.exists dir s then (ok tt, s) else io (S.create_dir_all dir) s

  unfoldable pub create_link : Text → LinkEntry → Files S (Unit {0})
  unfolding validate_relative_path parent create_parent remove_existing
  create_link rootfs entry = do
    lift (validate_relative_path entry.link)
    let link_path = path_join rootfs entry.link
    create_parent (parent link_path)
    remove_existing link_path
    map_error
        (λ (e : IoError). io_other (
          lit "Failed to create symlink "
          ++ (link_path ++ (lit " -> " ++ (entry.target ++ (lit ": " ++ e.message))))))
        (S.symlink entry.target link_path)

  create_each : Text → List LinkEntry → Files S (Unit {0})
  unfolding create_link
  create_each rootfs [] = pure tt
  create_each rootfs (entry ∷ rest) = do create_link rootfs entry; create_each rootfs rest

  create_listed : Text → Text → Files S (Unit {0})
  unfolding io parse_link_list create_each
  create_listed rootfs list_path = do
    content ← io (λ s. (S.read_to_string list_path s, s))
    entries ← lift (parse_link_list content)
    create_each rootfs entries
    io (S.remove_file list_path)

  unfoldable pub create_links_from_list : Text → Files S (Unit {0})
  unfolding create_listed
  create_links_from_list rootfs s =
      let list_path = path_join rootfs fs_link_list_path in
      if S.exists list_path s then create_listed rootfs list_path s else (ok tt, s)

  module _ (from_json : Text → Result Text (List LinkEntry)) where
    load_config_file : Text → Files S (List LinkEntry)
    unfolding io
    load_config_file path = do
      content ← io (λ s. (S.read_to_string path s, s))
      elim (from_json content) [
        | ok links ↦ pure links
        | err e ↦
            raise (io_other (lit "Failed to parse fs-link config " ++ (path ++ (lit ": " ++ e))))
      ]

    load_each : List Text → Files S (List LinkEntry)
    unfolding load_config_file
    load_each [] = pure []
    load_each (path ∷ rest) = do
      links ← load_config_file path
      more ← load_each rest
      pure (links ++ more)

    load_main : Text → Files S (List LinkEntry)
    unfolding load_config_file
    load_main path s = if S.exists path s then load_config_file path s else (ok [], s)

    load_dir : Text → Files S (List LinkEntry)
    unfolding load_each json_paths sort_paths io
    load_dir dir s =
        if S.is_dir dir s
        then (do
          entries ← io (λ t. (S.read_dir dir t, t))
          load_each (sort_paths (json_paths entries)))
            s
        else (ok [], s)

    unfoldable pub load_fs_link_config : Text → Files S (List LinkEntry)
    unfolding load_main load_dir
    load_fs_link_config rootfs = do
      first ← load_main (path_join rootfs fs_link_config_path)
      dropped_in ← load_dir (path_join rootfs fs_link_config_path_d)
      pure (first ++ dropped_in)

    unfoldable pub create_fs_links : Text → Files S (Unit {0})
    unfolding load_fs_link_config create_each create_links_from_list
    create_fs_links rootfs = do
      links ← load_fs_link_config rootfs
      create_each rootfs links
      create_links_from_list rootfs
