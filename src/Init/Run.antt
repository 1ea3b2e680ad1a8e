-- ===== src/Init/Run.antt =====
-- `run_init` of src/lib.rs: the order of the whole init, with `init_setup::run` of
-- src/init_setup/mod.rs and `BootMode::detect` of src/mode/mod.rs. The detection of the root device,
-- the opening of the environment, the resize of the data partition, the early modules and the flash
-- modes are parameters.
pub mod Rollback
use omnect_os_init.Base.{
  Bool, true, false, ◌++◌, Option, none, some, if◌then◌else◌, Result, ok, err, map_err,
}
use omnect_os_init.Base.Exec.{Exec, pure, lift, map_error, on_second, ◌>>◌, ◌>>=◌}
use omnect_os_init.Base.FilePath.{path_join}
use omnect_os_init.Base.Text.{Text, lit}
use omnect_os_init.Bootloader.Env.{BootEnv, BootEnvState, available, degraded, classify_boot_env}
use omnect_os_init.Config.Cmdline.{Cmdline, load_config}
use omnect_os_init.Error.{BootEnvError, PartitionError, InitramfsError, partition}
use omnect_os_init.Filesystem.BootSequence.{mount_core_partitions}
use omnect_os_init.Filesystem.System.{System}
use omnect_os_init.Init.{
  Applied, update_pending_from_env, detect_first_boot, apply_boot_env_decision,
}
use omnect_os_init.InitSetup.ExtraBootargs.{run_extra_bootargs}
use omnect_os_init.InitSetup.ResizeData.{run_resize_data}
use omnect_os_init.Mode.Detect.{BootMode, normal, factory_reset_mode, flash, detect_with}
use omnect_os_init.Mode.FactoryReset.Config.{Json}
use omnect_os_init.Mode.FactoryReset.Reset.{WipeOps}
use omnect_os_init.Mode.FactoryReset.Run.{run_factory_reset}
use omnect_os_init.Mode.Flash.Config.{FlashConfig, Decoder}
use omnect_os_init.Mode.Normal.Run.{Outside, Boot, state_of, with_state, run_normal}
use omnect_os_init.Partition.Device.{RootDevice}
use omnect_os_init.Partition.Layout.{TableKind, PartitionLayout, new_layout}
use omnect_os_init.Partition.Symlinks.{create_omnect_symlinks}
use omnect_os_init.Runtime.Ods.{OdsStatus, new_status}

-- `ROOTFS_DIR`
unfoldable pub rootfs_dir : Text
unfolding lit
rootfs_dir = lit "/rootfs"

-- The parts that are parameters, with the image's kind and its partition table.
pub record Parts (B : BootEnv) (S : System) : Type 0 where
  pub detect_root_device : Cmdline → Exec PartitionError S.State RootDevice
  pub open_boot_env : S.State → Result BootEnvError B.State × S.State
  pub resize : S.State → Result InitramfsError (Unit {0}) × S.State
  pub load_early_modules : Text → S.State → S.State
  pub run_flash : FlashConfig → Boot B S (Unit {0})
  pub is_release : Bool
  pub table : TableKind

module _ (B : BootEnv) (S : System) (P : Parts B S) where
  -- Up to the core mounts.
  unfoldable pub begin_init : Exec InitramfsError S.State (Cmdline × PartitionLayout)
  unfolding load_config new_layout create_omnect_symlinks
  begin_init = do
    cmdline ← (λ s. (load_config (S.read_to_string (lit "/proc/cmdline") s), s))
    device ← map_error partition (P.detect_root_device cmdline)
    layout ← lift (map_err partition (new_layout P.table device))
    map_error partition (create_omnect_symlinks S layout)
    pure (cmdline, layout)

  -- The core mounts, the opening of the environment and the decision on it.
  unfoldable pub open_env : PartitionLayout → S.State → Applied B S
  unfolding mount_core_partitions apply_boot_env_decision classify_boot_env
  open_env layout s =
      let (core, (o, s')) = mount_core_partitions S layout.partitions rootfs_dir (new_status, s) in
      let (opened, s'') = P.open_boot_env s' in
      apply_boot_env_decision B S (classify_boot_env B opened P.is_release) core o rootfs_dir s''

  resize_step :
      (Result InitramfsError (Unit {0}) × OdsStatus) × S.State
      → BootEnvState B
      → Result InitramfsError (Unit {0}) × (BootEnvState B × (OdsStatus × S.State))
  resize_step ((r, o), s) env = (r, (env, (o, s)))

  -- `init_setup::run`
  unfoldable pub init_setup : Boot B S (Unit {0})
  unfolding run_extra_bootargs run_resize_data resize_step
  init_setup = do
    (λ (env, (o, s)).
        let (r, (env', o')) = run_extra_bootargs B S rootfs_dir s env o in (r, (env', (o', s))))
    (λ (env, (o, s)). resize_step (run_resize_data B P.resize env o s) env)

  early_modules : Boot B S (Unit {0})
  early_modules (env, (o, s)) = (ok tt, (env, (o, P.load_early_modules rootfs_dir s)))

  module _ (W : WipeOps S) (J : Json) (d : Decoder) (x : Outside S) where
    -- The handler of a mode; a flash mode skips the setup of the running disk.
    unfoldable pub dispatch : Cmdline → PartitionLayout → BootMode → Boot B S (Unit {0})
    unfolding init_setup early_modules run_normal run_factory_reset
    dispatch cmdline layout normal = do
      init_setup
      early_modules
      run_normal B S x layout.partitions rootfs_dir cmdline
    dispatch cmdline layout (factory_reset_mode trigger) = do
      init_setup
      early_modules
      run_factory_reset B S W J x layout.partitions rootfs_dir cmdline trigger
    dispatch cmdline layout (flash config) = P.run_flash config

    -- The flag is a regular file.
    enforce_flag : Text → S.State → Bool
    unfolding path_join
    enforce_flag root s = elim (S.metadata (path_join root (lit "etc/enforce_flash_mode")) s) [
      | ok (is_file, mode) ↦ is_file
      | err e ↦ false
    ]

    -- `BootMode::detect`, with the flag that an image recipe adds.
    unfoldable pub detect_mode : Boot B S BootMode
    unfolding detect_with enforce_flag
    detect_mode (env, (o, s)) =
        let flag = enforce_flag (lit "/") s in
        let (r, state) = detect_with B d J (state_of env) flag in
        (r, (with_state env state, (o, s)))

    -- Behind the flag of the update, which stays as it was read.
    unfoldable pub run_mode : Cmdline → PartitionLayout → Boot B S (Unit {0})
    unfolding detect_first_boot detect_mode dispatch
    run_mode cmdline layout (env, (o, s)) =
        let (first, env') = detect_first_boot B env in
        (do mode ← detect_mode; dispatch cmdline layout mode)
          (env', (record o { first_boot = first }, s))

    -- The result, with the flag `UPDATE_PENDING`.
    with_env :
        Cmdline
        → PartitionLayout
        → BootEnvState B
        → OdsStatus × S.State
        → Result InitramfsError (Unit {0}) × Bool
    unfolding update_pending_from_env run_mode
    with_env cmdline layout env t =
        let (pending, env') = update_pending_from_env B env in
        ((run_mode cmdline layout (env', t)).0, pending)

    -- The decision's result and environment; there is one whenever the result is a success.
    unfoldable pub go_on_with :
        Cmdline
        → PartitionLayout
        → Result InitramfsError (Unit {0})
        → Option (BootEnvState B)
        → OdsStatus × S.State
        → Result InitramfsError (Unit {0}) × Bool
    unfolding with_env
    go_on_with cmdline layout (err e) env t = (err e, false)
    go_on_with cmdline layout (ok _) none t = (ok tt, false)
    go_on_with cmdline layout (ok _) (some env) t = with_env cmdline layout env t

    unfoldable pub go_on_after :
        Cmdline → PartitionLayout → Applied B S → Result InitramfsError (Unit {0}) × Bool
    unfolding go_on_with
    go_on_after cmdline layout applied =
        go_on_with cmdline layout applied.result applied.env (applied.status, applied.files)

    begun :
        Result InitramfsError (Cmdline × PartitionLayout) × S.State
        → Result InitramfsError (Unit {0}) × Bool
    unfolding open_env go_on_after
    begun (err e, s) = (err e, false)
    begun (ok (cmdline, layout), s) = go_on_after cmdline layout (open_env layout s)

    -- `run_init`
    unfoldable pub run_init : S.State → Result InitramfsError (Unit {0}) × Bool
    unfolding begun begin_init
    run_init s = begun (begin_init s)
