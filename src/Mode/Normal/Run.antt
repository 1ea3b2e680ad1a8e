-- ===== src/Mode/Normal/Run.antt =====
-- `run` of src/mode/normal.rs: the normal boot, from the mounts of the remaining partitions to the
-- switch to the system.
pub mod Reports
use omnect_os_init.Base.{Bool, Option, none, some, List, Result, ok, err}
use omnect_os_init.Base.Exec.{Exec, pure, raise, lift, map_error, on_second, beside, ◌>>◌, ◌>>=◌}
use omnect_os_init.Base.Text.{Text, lit}
use omnect_os_init.Bootloader.Env.{BootEnv, BootEnvState, available, degraded}
use omnect_os_init.Config.Cmdline.{Cmdline}
use omnect_os_init.Error.{FilesystemError, InitramfsError, filesystem}
use omnect_os_init.Filesystem.BootSequence.{
  Partitions, mount_remaining_partitions, persist_fsck_results, drain_fsck_env,
}
use omnect_os_init.Filesystem.Overlay.{
  setup_raw_rootfs_mount, setup_etc_overlay, setup_data_overlay,
}
use omnect_os_init.Filesystem.System.{System}
use omnect_os_init.Mode.Normal.{marker_due, write_first_boot_marker}
use omnect_os_init.Runtime.FsLink.{LinkEntry, create_fs_links}
use omnect_os_init.Runtime.Ods.{OdsStatus}
use omnect_os_init.Runtime.SwitchRoot.{switch_root}
use omnect_os_init.Runtime.Validation.{create_ods_runtime_files}

-- `ODS_RUNTIME_DIR`
unfoldable pub ods_runtime_dir : Text
unfolding lit
ods_runtime_dir = lit "/run/omnect-device-service"

-- What the boot takes from elsewhere: the codecs of JSON, the deletion of the initramfs, and whether
-- the feature `persistent-var-log` is built in.
pub record Outside (S : System) : Type 0 where
  pub to_json : OdsStatus → Result Text Text
  pub links_from_json : Text → Result Text (List LinkEntry)
  pub free_initramfs : S.State → S.State
  pub persistent_var_log : Bool

-- The environment with the state that an operation left of it.
abbrev pub with_state : {B : BootEnv} → BootEnvState B → Option B.State → BootEnvState B
with_state (degraded e) state = degraded e
with_state (available b) none = available b
with_state (available b) (some b') = available b'

-- `available_mut`
abbrev pub state_of : {B : BootEnv} → BootEnvState B → Option B.State
state_of (available b) = some b
state_of (degraded e) = none

module _ (B : BootEnv) (S : System) where
  -- An operation of a boot mode: the environment, the status of the boot and the file systems.
  abbrev pub Boot : Type 0 → Type 0
  Boot A = Exec InitramfsError (BootEnvState B × (OdsStatus × S.State)) A

  abbrev pub on_files : {A : Type 0} → Exec InitramfsError S.State A → Boot A
  on_files m = on_second (on_second m)

  abbrev pub on_mounts : {A : Type 0} → Exec FilesystemError S.State A → Boot A
  on_mounts m = on_files (map_error filesystem m)

  -- The mounts of the remaining partitions; what they recorded is persisted, and then their error
  -- is passed on.
  unfoldable pub mount_and_persist : Partitions → Text → Boot (Unit {0})
  unfolding mount_remaining_partitions persist_fsck_results
  mount_and_persist partitions rootfs (env, t) =
      let (mounted, (o, s)) = mount_remaining_partitions S partitions rootfs t in
      let (env', s') = persist_fsck_results B S o rootfs (env, s) in (mounted, (env', (o, s')))

  unfoldable pub drain : Boot (Unit {0})
  unfolding drain_fsck_env
  drain (env, (o, s)) = let (o', env') = drain_fsck_env B o env in (ok tt, (env', (o', s)))

  ods_files_result :
      BootEnvState B
      → OdsStatus
      → Result InitramfsError (Unit {0}) × (Option B.State × S.State)
      → Result InitramfsError (Unit {0}) × (BootEnvState B × (OdsStatus × S.State))
  ods_files_result env o (r, (state, s)) = (r, (with_state env state, (o, s)))

  mark_first_boot : Boot (Unit {0})
  unfolding write_first_boot_marker marker_due
  mark_first_boot (env, (o, s)) = (ok tt, (write_first_boot_marker B (marker_due o) env, (o, s)))

  module _ (x : Outside S) where
    create_ods_files : Text → Boot (Unit {0})
    unfolding create_ods_runtime_files ods_files_result
    create_ods_files rootfs (env, (o, s)) =
        ods_files_result env o
          (create_ods_runtime_files B S x.to_json o rootfs ods_runtime_dir (state_of env, s))

    -- Behind the mounts.
    unfoldable pub finish_boot : Text → Cmdline → Boot (Unit {0})
    unfolding setup_raw_rootfs_mount setup_etc_overlay setup_data_overlay create_fs_links
        create_ods_files mark_first_boot switch_root
    finish_boot rootfs cmdline = do
      on_mounts (setup_raw_rootfs_mount S rootfs)
      on_mounts (setup_etc_overlay S rootfs)
      on_mounts (setup_data_overlay S x.persistent_var_log rootfs)
      on_files (create_fs_links S x.links_from_json rootfs)
      drain
      create_ods_files rootfs
      mark_first_boot
      on_files (switch_root S x.free_initramfs rootfs cmdline)

    -- `run`
    unfoldable pub run_normal : Partitions → Text → Cmdline → Boot (Unit {0})
    unfolding mount_and_persist finish_boot
    run_normal partitions rootfs cmdline = do
      mount_and_persist partitions rootfs
      finish_boot rootfs cmdline
