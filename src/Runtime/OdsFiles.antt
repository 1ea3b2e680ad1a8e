-- ===== src/Runtime/OdsFiles.antt =====
-- The files of src/runtime/omnect_device_service.rs with their owners and modes, and the ids of the
-- service in the root file system.
use omnect_os_init.Base.{ℕ, List, [], ◌∷◌, ◌++◌, ◌==◌, if◌then◌else◌, Result, ok, err}
use omnect_os_init.Base.Exec.{Exec, map_error, ◌>>◌}
use omnect_os_init.Base.FilePath.{path_join}
use omnect_os_init.Base.Text.{Text, lit, text_eq, split}
use omnect_os_init.Base.Text.Numbers.{IntErrorKind, parse_uint, int_error_text, u32_max}
use omnect_os_init.Bootloader.Grub.{lines}
use omnect_os_init.Error.{IoError, other, InitramfsError}
use omnect_os_init.Filesystem.System.{System}
use omnect_os_init.Runtime.Ods.{OdsStatus}

-- `InitramfsError::Io(std::io::Error::other(…))`
abbrev pub io_other : Text → InitramfsError
io_other message = InitramfsError.io (record { kind = other; message = message })

-- "Failed to <what> <path>: <reason>"
abbrev pub failed_to : Text → Text → Text → InitramfsError
failed_to what path reason = io_other (lit "Failed to " ++ (what ++ (path ++ (lit ": " ++ reason))))

pub data FilePermission : Type 0 where
  dir_standard file_restricted file_readable : FilePermission

unfoldable pub permission_bits : FilePermission → ℕ
permission_bits dir_standard = 0o775
permission_bits file_restricted = 0o600
permission_bits file_readable = 0o644

unfoldable pub ods_status_file : Text
unfolding lit
ods_status_file = lit "omnect-os-initramfs.json"

-- `TRIGGER_FILE_CONTENT`
unfoldable pub trigger_file_content : Text
unfolding lit
trigger_file_content = lit "1"

module _ (kind who file : Text) where
  id_of_number : Result IntErrorKind ℕ → Result InitramfsError ℕ
  unfolding int_error_text
  id_of_number (ok n) = ok n
  id_of_number (err e) = err (
      io_other (
        lit "Invalid "
        ++ ((if text_eq kind (lit "user") then lit "UID" else lit "GID")
            ++ (lit " for " ++ (who ++ (lit ": " ++ int_error_text e))))))

  -- The third field of the first line with three fields whose first one is the name. `splitn` cuts
  -- behind the third field only, so `split` gives the same one.
  id_in_lines : List Text → Result InitramfsError ℕ
  unfolding split text_eq id_of_number parse_uint
  id_in_lines [] = err (io_other (kind ++ (lit " " ++ (who ++ (lit " not found in " ++ file)))))
  id_in_lines (line ∷ rest) =
      let below = id_in_lines rest in
      elim (split (λ c. c == b':') line) [
        | name ∷ password ∷ id ∷ _ ↦
            if text_eq name who then id_of_number (parse_uint u32_max id) else below
        | _ ↦ below
      ]

module _ (S : System) where
  abbrev pub Files : Type 0 → Type 0
  Files A = Exec InitramfsError S.State A

  id_in_file : Text → Text → Text → Files ℕ
  unfolding id_in_lines lines
  id_in_file kind who file s = elim (S.read_to_string file s) [
    | err e ↦ (err (failed_to (lit "read ") file e.message), s)
    | ok content ↦ (id_in_lines kind who file (lines content), s)
  ]

  unfoldable pub lookup_uid : Text → Text → Files ℕ
  unfolding id_in_file
  lookup_uid rootfs username =
      id_in_file (lit "user") username (path_join rootfs (lit "etc/passwd"))

  unfoldable pub lookup_gid : Text → Text → Files ℕ
  unfolding id_in_file
  lookup_gid rootfs groupname =
      id_in_file (lit "group") groupname (path_join rootfs (lit "etc/group"))

  unfoldable pub set_ownership : Text → ℕ → ℕ → Files (Unit {0})
  set_ownership path uid gid = map_error (failed_to (lit "chown ") path) (S.chown path uid gid)

  unfoldable pub set_mode : Text → FilePermission → Files (Unit {0})
  unfolding permission_bits
  set_mode path mode =
      map_error (λ (e : IoError). failed_to (lit "chmod ") path e.message)
        (S.set_permissions path (permission_bits mode))

  -- serde_json::to_string_pretty, or its error
  unfoldable pub write_status_file :
      (OdsStatus → Result Text Text) → Text → OdsStatus → Files (Unit {0})
  write_status_file to_json ods_dir status s = elim (to_json status) [
    | err e ↦ (err (io_other (lit "Failed to serialize ODS status: " ++ e)), s)
    | ok json ↦
        map_error
          (λ (e : IoError).
            failed_to (lit "write ODS status to ") (path_join ods_dir ods_status_file) e.message)
          (S.write (path_join ods_dir ods_status_file) json) s
  ]

  unfoldable pub write_trigger_file : Text → Text → FilePermission → ℕ → ℕ → Files (Unit {0})
  unfolding set_ownership set_mode trigger_file_content
  write_trigger_file ods_dir name mode uid gid = do
    let path = path_join ods_dir name
    map_error (λ (e : IoError). failed_to (lit "write ") path e.message)
        (S.write path trigger_file_content)
    set_ownership path uid gid
    set_mode path mode
