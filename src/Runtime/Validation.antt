-- ===== src/Runtime/Validation.antt =====
-- The update validation of src/runtime/omnect_device_service.rs, and all files it leaves for the
-- service.
pub mod Gate
use omnect_os_init.Base.{ℕ, Bool, true, false, ◌||◌, Option, none, some, Result, ok, err, ◌++◌}
use omnect_os_init.Base.Exec.{Exec, pure, raise, map_error, on_second, ◌>>◌, ◌>>=◌}
use omnect_os_init.Base.FilePath.{path_join}
use omnect_os_init.Base.Text.{Text, lit}
use omnect_os_init.Bootloader.Env.{
  succeeded, BootEnv, is_flag_set, is_first_boot_done, set_first_boot_done,
}
use omnect_os_init.Bootloader.Key.{
  BootEnvKey, validate_update, validate_update_failed, bootloader_updated,
}
use omnect_os_init.Error.{
  BootEnvError, IoError, InitramfsError, bootloader, conflicting_update_flags,
}
use omnect_os_init.Filesystem.Paths.{data_mount}
use omnect_os_init.Filesystem.System.{System}
use omnect_os_init.Runtime.Ods.{OdsStatus}
use omnect_os_init.Runtime.OdsFiles.{
  FilePermission, dir_standard, file_restricted, file_readable, failed_to, io_other,
  ods_status_file, lookup_uid, lookup_gid, set_ownership, set_mode, write_status_file,
  write_trigger_file,
}

unfoldable pub update_validate_file : Text
unfolding lit
update_validate_file = lit "omnect_validate_update"

unfoldable pub update_validate_failed_file : Text
unfolding lit
update_validate_failed_file = lit "omnect_validate_update_failed"

unfoldable pub bootloader_updated_file : Text
unfolding lit
bootloader_updated_file = lit "omnect_bootloader_updated"

-- `UPDATE_VALIDATION_CONF`
unfoldable pub update_validation_conf : Text
unfolding lit
update_validation_conf = lit "omnect-device-service/update_validation_conf.json"

-- A read of the marker that fails counts as not set.
abbrev pub is_ok_and_set : Result BootEnvError Bool → Bool
is_ok_and_set (ok done) = done
is_ok_and_set (err e) = false

-- Where the directory and the file system that the files go to are, with their owner.
pub record Target : Type 0 where
  pub ods_dir : Text
  pub rootfs : Text
  pub uid : ℕ
  pub gid : ℕ

module _ (B : BootEnv) where
  marker_after : Bool → B.State → Bool × B.State
  unfolding set_first_boot_done
  marker_after true b = (true, b)
  marker_after false b = let (r, b') = set_first_boot_done B b in (succeeded r, b')

  -- The marker is set afterwards.
  unfoldable pub ensure_first_boot_marker : B.State → Bool × B.State
  unfolding marker_after is_first_boot_done
  ensure_first_boot_marker b =
      let (r, b') = is_first_boot_done B b in marker_after (is_ok_and_set r) b'

  -- A failure is logged only.
  unfoldable pub clear_flag : BootEnvKey → B.State → B.State
  clear_flag key b = (B.set_env key none b).1

  unfoldable pub clear_update_flag : BootEnvKey → Bool → B.State → B.State
  unfolding clear_flag
  clear_update_flag key true b = clear_flag key b
  clear_update_flag key false b = b

  module _ (S : System) where
    -- An operation on the environment and the file systems.
    abbrev pub Ods : Type 0 → Type 0
    Ods A = Exec InitramfsError (B.State × S.State) A

    abbrev with_files :
        {A : Type 0}
        → S.State
        → Result BootEnvError A × B.State
        → Result InitramfsError A × (B.State × S.State)
    with_files s (ok a, b) = (ok a, (b, s))
    with_files s (err e, b) = (err (bootloader e), (b, s))

    unfoldable pub read_flag : BootEnvKey → Ods Bool
    unfolding is_flag_set
    read_flag key (b, s) = with_files s (is_flag_set B key b)

    unfoldable pub refuse_conflict :
        (validate_update validate_update_failed : Bool) → Ods (Unit {0})
    refuse_conflict true true = raise conflicting_update_flags
    refuse_conflict true false = pure tt
    refuse_conflict false failed = pure tt

    -- `remove_update_validation_conf`; a failure is logged only.
    remove_update_validation_conf : Text → S.State → S.State
    unfolding update_validation_conf
    remove_update_validation_conf rootfs s =
        (S.remove_file
          (path_join (path_join (path_join rootfs data_mount) (lit "var/lib"))
            update_validation_conf)
          s).1

    unfoldable pub remove_conf_unless : Bool → Text → Ods (Unit {0})
    unfolding remove_update_validation_conf
    remove_conf_unless true rootfs (b, s) = (ok tt, (b, s))
    remove_conf_unless false rootfs (b, s) = (ok tt, (b, remove_update_validation_conf rootfs s))

    -- `after_update && ensure_first_boot_marker(bootloader)`
    unfoldable pub marker_if : Bool → Ods Bool
    unfolding ensure_first_boot_marker
    marker_if false t = (ok false, t)
    marker_if true (b, s) = let (set, b') = ensure_first_boot_marker b in (ok set, (b', s))

    unfoldable pub clear_when_marked : BootEnvKey → Bool → Ods (Unit {0})
    unfolding clear_update_flag
    clear_when_marked key marker_set (b, s) = (ok tt, (clear_update_flag key marker_set b, s))

    unfoldable pub trigger : Target → Text → FilePermission → Ods (Unit {0})
    trigger t name mode = on_second (write_trigger_file S t.ods_dir name mode t.uid t.gid)

    unfoldable pub trigger_if : Bool → Target → Text → FilePermission → Ods (Unit {0})
    unfolding trigger
    trigger_if true t name mode = trigger t name mode
    trigger_if false t name mode = pure tt

    -- The trigger file of a flag, and then the flag.
    unfoldable pub report_flag :
        Bool → Target → Text → FilePermission → BootEnvKey → Bool → Ods (Unit {0})
    unfolding trigger clear_when_marked
    report_flag true t name mode key marker_set = do
      trigger t name mode
      clear_when_marked key marker_set
    report_flag false t name mode key marker_set = pure tt

    unfoldable pub handle_update_validation : Target → Ods (Unit {0})
    unfolding read_flag refuse_conflict remove_conf_unless marker_if trigger_if report_flag
    handle_update_validation t = do
      validate ← read_flag validate_update
      failed ← read_flag validate_update_failed
      refuse_conflict validate failed
      remove_conf_unless validate t.rootfs
      updated ← read_flag bootloader_updated
      marker_set ← marker_if (validate || failed || updated)
      trigger_if validate t update_validate_file file_readable
      report_flag failed t update_validate_failed_file file_readable validate_update_failed
          marker_set
      report_flag updated t bootloader_updated_file file_restricted bootloader_updated marker_set

  module _ (S : System) (to_json : OdsStatus → Result Text Text) where
    -- The validation is skipped without an environment.
    validate_if :
        Target
        → Option B.State × S.State
        → Result InitramfsError (Unit {0}) × (Option B.State × S.State)
    unfolding handle_update_validation
    validate_if t (none, s) = (ok tt, (none, s))
    validate_if t (some b, s) =
        let (r, (b', s')) = handle_update_validation S t (b, s) in (r, (some b', s'))

    unfoldable pub create_ods_runtime_files :
        OdsStatus → Text → Text → Exec InitramfsError (Option B.State × S.State) (Unit {0})
    unfolding validate_if lookup_uid lookup_gid set_ownership set_mode write_status_file
    create_ods_runtime_files status rootfs ods_dir = do
      uid ← on_second (lookup_uid S rootfs (lit "omnect_device_service"))
      gid ← on_second (lookup_gid S rootfs (lit "omnect_device_service"))
      on_second (
          map_error
            (λ (e : IoError). io_other (lit "Failed to create ODS runtime dir: " ++ e.message))
            (S.create_dir_all ods_dir))
      on_second (set_ownership S ods_dir uid gid)
      on_second (set_mode S ods_dir dir_standard)
      on_second (write_status_file S to_json ods_dir status)
      on_second (set_ownership S (path_join ods_dir ods_status_file) uid gid)
      on_second (set_mode S (path_join ods_dir ods_status_file) file_restricted)
      validate_if (record { ods_dir = ods_dir; rootfs = rootfs; uid = uid; gid = gid })
