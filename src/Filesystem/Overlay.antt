-- ===== src/Filesystem/Overlay.antt =====
-- src/filesystem/overlayfs.rs: the overlays of etc and home, and the bind mounts of the data
-- partition. The mounts are tracked with the newest first.
use omnect_os_init.Base.{
  Bool, true, false, List, [], ◌∷◌, ◌++◌, some, if◌then◌else◌, Result, ok, err,
}
use omnect_os_init.Base.Exec.{Exec, pure, raise, map_error, on_second, ◌>>◌, ◌>>=◌}
use omnect_os_init.Base.FilePath.{path_join}
use omnect_os_init.Base.Text.{Text, lit}
use omnect_os_init.Bootloader.Uboot.{Output, is_success}
use omnect_os_init.Error.{IoError, FilesystemError, overlay_failed}
use omnect_os_init.Error.Display.{filesystem_text}
use omnect_os_init.Filesystem.Mount.{Fs, mount, mount_bind, mount_bind_private}
use omnect_os_init.Filesystem.Paths.{etc_mount, factory_mount, data_mount}
use omnect_os_init.Filesystem.System.{System, no_flags}
use omnect_os_init.Filesystem.Types.{overlay}

unfoldable pub etc_path : Text
unfolding lit
etc_path = lit "etc"

unfoldable pub home_path : Text
unfolding lit
home_path = lit "home"

unfoldable pub var_lib : Text
unfolding lit
var_lib = lit "var/lib"

unfoldable pub upper : Text
unfolding lit
upper = lit "upper"

unfoldable pub work : Text
unfolding lit
work = lit "work"

-- `ROOT_CURRENT_PRIVATE`
unfoldable pub root_current_private : Text
unfolding lit
root_current_private = lit "mnt/rootCurrentPrivate"

module _ (S : System) where
  -- An operation that also tracks what it mounts.
  abbrev pub Tracked : Type 0 → Type 0
  Tracked A = Exec FilesystemError (List Text × S.State) A

  track_mount : Text → Tracked (Unit {0})
  track_mount target (mounts, s) = (ok tt, (target ∷ mounts, s))

  unfoldable pub ensure_dir : Text → Fs S (Unit {0})
  ensure_dir path s =
      if S.exists path s
      then (ok tt, s)
      else map_error
          (λ (e : IoError). overlay_failed path (lit "Failed to create directory: " ++ e.message))
          (S.create_dir_all path) s

  ensure_overlay_dirs : Text → Text → Fs S (Unit {0})
  unfolding ensure_dir
  ensure_overlay_dirs upper_dir work_dir = do ensure_dir upper_dir; ensure_dir work_dir

  no_entries : {A : Type 0} → List A → Bool
  no_entries [] = true
  no_entries (entry ∷ rest) = false

  is_upper_dir_empty : Text → S.State → Result FilesystemError Bool
  unfolding no_entries
  is_upper_dir_empty path s =
      if S.exists path s
      then elim (S.read_dir path s) [
        | err e ↦ err (overlay_failed path (lit "Failed to read directory: " ++ e.message))
        | ok entries ↦ ok (no_entries entries)
      ]
      else ok true

  copied : Text → Output → Fs S (Unit {0})
  copied dst out =
      if is_success out
      then pure tt
      else raise (overlay_failed dst (lit "cp failed: " ++ out.stderr))

  unfoldable pub copy_directory_contents : Text → Text → Fs S (Unit {0})
  unfolding copied
  copy_directory_contents src dst s =
      if S.exists src s
      then (do
        out ←
            map_error
              (λ (e : IoError). overlay_failed dst (lit "Failed to execute cp: " ++ e.message))
              (S.output (record {
                program = lit "/bin/cp";
                args = lit "-a" ∷ (src ++ lit "/.") ∷ dst ∷ [];
                envs = [];
              }))
        copied dst out)
          s
      else (ok tt, s)

  unfoldable pub mount_overlay : (lower upper_dir work_dir target : Text) → Fs S (Unit {0})
  unfolding mount filesystem_text
  mount_overlay lower upper_dir work_dir target =
      let options =
        lit "lowerdir="
        ++ (lower
            ++ (lit ",upperdir="
                ++ (upper_dir ++ (lit ",workdir=" ++ (work_dir ++ lit ",index=off,uuid=off"))))) in
      map_error (λ e. overlay_failed target (filesystem_text e ++ (lit ": options=" ++ options)))
        (mount S (record {
          source = lit "overlay";
          target = target;
          options = record {
            fstype = some overlay;
            flags = record no_flags { noatime = true; nodiratime = true };
            extra = some options;
          };
        }))

  seed_if : Bool → Text → Text → Fs S (Unit {0})
  unfolding copy_directory_contents
  seed_if true factory_etc upper_dir = copy_directory_contents factory_etc upper_dir
  seed_if false factory_etc upper_dir = pure tt

  unfoldable pub setup_etc_overlay_tracked : Text → Tracked (Unit {0})
  unfolding ensure_overlay_dirs is_upper_dir_empty seed_if mount_overlay track_mount
  setup_etc_overlay_tracked rootfs = do
    let upper_dir = path_join (path_join rootfs etc_mount) upper
    let work_dir = path_join (path_join rootfs etc_mount) work
    let target = path_join rootfs etc_path
    on_second (ensure_overlay_dirs upper_dir work_dir)
    empty ← on_second (λ s. (is_upper_dir_empty upper_dir s, s))
    on_second (seed_if empty (path_join (path_join rootfs factory_mount) etc_path) upper_dir)
    on_second (mount_overlay target upper_dir work_dir target)
    track_mount target

  setup_home_overlay : Text → Text → Fs S (Unit {0})
  unfolding ensure_dir ensure_overlay_dirs mount_overlay
  setup_home_overlay rootfs data_dir = do
    let home_data = path_join data_dir home_path
    let target = path_join rootfs home_path
    ensure_dir home_data
    ensure_overlay_dirs (path_join home_data upper) (path_join home_data work)
    mount_overlay target (path_join home_data upper) (path_join home_data work) target

  bind_mount : Text → Text → Fs S (Unit {0})
  unfolding ensure_dir mount_bind
  bind_mount source target = do ensure_dir source; ensure_dir target; mount_bind S source target

  bind_tracked : Text → Text → Tracked (Unit {0})
  unfolding bind_mount track_mount
  bind_tracked source target = do on_second (bind_mount source target); track_mount target

  -- With the feature `persistent-var-log`.
  var_log_if : Bool → Text → Text → Tracked (Unit {0})
  unfolding bind_tracked
  var_log_if true rootfs data_dir =
      bind_tracked (path_join data_dir (lit "log")) (path_join rootfs (lit "var/log"))
  var_log_if false rootfs data_dir = pure tt

  unfoldable pub setup_data_overlay_tracked : Bool → Text → Tracked (Unit {0})
  unfolding setup_home_overlay bind_tracked track_mount var_log_if
  setup_data_overlay_tracked persistent_var_log rootfs = do
    let data_dir = path_join rootfs data_mount
    on_second (setup_home_overlay rootfs data_dir)
    track_mount (path_join rootfs home_path)
    bind_tracked (path_join data_dir var_lib) (path_join rootfs var_lib)
    bind_tracked (path_join data_dir (lit "local")) (path_join rootfs (lit "usr/local"))
    var_log_if persistent_var_log rootfs data_dir

  abbrev untracked :
      {A : Type 0}
      → Result FilesystemError A × (List Text × S.State)
      → Result FilesystemError A × S.State
  untracked (r, (mounts, s)) = (r, s)

  unfoldable pub setup_etc_overlay : Text → Fs S (Unit {0})
  unfolding setup_etc_overlay_tracked
  setup_etc_overlay rootfs s = untracked (setup_etc_overlay_tracked rootfs ([], s))

  unfoldable pub setup_data_overlay : Bool → Text → Fs S (Unit {0})
  unfolding setup_data_overlay_tracked
  setup_data_overlay persistent_var_log rootfs s =
      untracked (setup_data_overlay_tracked persistent_var_log rootfs ([], s))

  unfoldable pub setup_raw_rootfs_mount : Text → Fs S (Unit {0})
  unfolding ensure_dir mount_bind_private
  setup_raw_rootfs_mount rootfs = do
    let raw_mount = path_join rootfs root_current_private
    ensure_dir raw_mount
    mount_bind_private S rootfs raw_mount
