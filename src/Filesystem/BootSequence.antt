-- ===== src/Filesystem/BootSequence.antt =====
-- src/filesystem/boot_sequence.rs: the mounts of a boot with their checks, and the way of the fsck
-- records through the boot environment.
pub mod Checks
pub mod Stops
pub mod Carry
pub mod Distinct
pub mod Drain
use omnect_os_init.Base.{
  ℕ, Bool, true, false, List, [], ◌∷◌, ◌++◌, Option, none, some, if◌then◌else◌, Result, ok, err,
}
use omnect_os_init.Base.Dict.{Dict, lookup}
use omnect_os_init.Base.Exec.{Exec, pure, raise, lift, map_error, on_second, beside, ◌>>=◌, ◌>>◌}
use omnect_os_init.Base.FilePath.{path_join}
use omnect_os_init.Base.Text.{Text, lit, is_empty}
use omnect_os_init.Bootloader.Env.{BootEnv, BootEnvState, available, degraded}
use omnect_os_init.Bootloader.Record.{FsckRecord}
use omnect_os_init.Error.{
  ErrorKind, IoError, other, BootEnvError, invalid_value, FilesystemError, mount_failed,
  fsck_requires_reboot, PartitionError, device_detection, InitramfsError, partition, filesystem,
}
use omnect_os_init.Filesystem.ExitCode.{FsckExitCode, is_clean}
use omnect_os_init.Filesystem.Fsck.{FsckResult, check_filesystem_lenient}
use omnect_os_init.Filesystem.Mount.{
  MountOptions, MountPoint, mount, mount_tmpfs, is_path_mounted, ext4_readonly, ext4_readwrite,
  vfat_options, noatime, nodiratime,
}
use omnect_os_init.Filesystem.Paths.{
  boot_mount, factory_mount, cert_mount, etc_mount, data_mount, var_volatile,
}
use omnect_os_init.Filesystem.System.{System, no_flags}
use omnect_os_init.Filesystem.Types.{FsType, ext4, vfat}
use omnect_os_init.Partition.Name.{
  PartitionName, boot, root_current, factory, cert, etc, data_part, name_text, name_equality,
}
use omnect_os_init.Runtime.Ods.{OdsStatus, FsckStatus, record_fsck_result}

-- `FSCK_PARTITIONS`
abbrev pub fsck_partitions : List PartitionName
fsck_partitions = boot ∷ factory ∷ cert ∷ etc ∷ data_part ∷ []

abbrev pub Partitions : Type 0
Partitions = Dict PartitionName Text

record_result :
    PartitionName
    → Result FilesystemError FsckResult
    → OdsStatus
    → Result FilesystemError (Unit {0}) × OdsStatus
unfolding record_fsck_result
record_result name (ok r) o = (ok tt, record_fsck_result name r.exit_code r.output o)
record_result name (err (fsck_requires_reboot device code output)) o =
    (err (fsck_requires_reboot device code output), record_fsck_result name code output o)
record_result name (err e) o = (err e, o)

module _ (S : System) where
  -- An operation that may also change the status of this boot.
  abbrev pub Boot : Type 0 → Type 0 → Type 0
  Boot E A = Exec E (OdsStatus × S.State) A

  unfoldable pub fsck_and_record : Text → PartitionName → FsType → Boot FilesystemError (Unit {0})
  unfolding record_result
  fsck_and_record dev name fstype (o, s) =
      let (r, s') = check_filesystem_lenient S dev fstype s in
      let (done, o') = record_result name r o in (done, (o', s'))

  abbrev fs : {A : Type 0} → Exec FilesystemError S.State A → Boot InitramfsError A
  fs m = map_error filesystem (on_second m)

  checked_mount :
      Text → PartitionName → FsType → Text → MountOptions → Boot FilesystemError (Unit {0})
  unfolding fsck_and_record mount
  checked_mount dev name fstype target options = do
    fsck_and_record dev name fstype
    on_second (mount S (record { source = dev; target = target; options = options }))

  mount_boot : Text → Text → Bool → Boot InitramfsError (Unit {0})
  unfolding checked_mount
  mount_boot dev target true = raise (
      filesystem (
        mount_failed dev target
          (lit "boot partition already mounted at start of mount_core_partitions")))
  mount_boot dev target false =
      map_error filesystem (checked_mount dev boot vfat target vfat_options)

  mount_boot_if : Option Text → Text → Boot InitramfsError (Unit {0})
  unfolding mount_boot is_path_mounted
  mount_boot_if none rootfs = pure tt
  mount_boot_if (some dev) rootfs = do
    let target = path_join rootfs boot_mount
    mounted ← fs (λ s. (is_path_mounted S target s, s))
    mount_boot dev target mounted

  root_or_missing : Option Text → Boot InitramfsError Text
  root_or_missing none = raise (
      partition
        (device_detection (lit "rootCurrent not found in partition map; cannot mount rootfs")))
  root_or_missing (some dev) = pure dev

  create_error : Text → IoError → InitramfsError
  create_error rootfs e = InitramfsError.io (record {
    kind = other;
    message = lit "Failed to create rootfs mount point " ++ (rootfs ++ (lit ": " ++ e.message));
  })

  unfoldable pub mount_core_partitions : Partitions → Text → Boot InitramfsError (Unit {0})
  unfolding root_or_missing create_error mount mount_boot_if
  mount_core_partitions partitions rootfs = do
    root_dev ← root_or_missing (lookup root_current partitions)
    map_error (create_error rootfs) (on_second (S.create_dir_all rootfs))
    fs (
        mount S (record {
          source = root_dev;
          target = rootfs;
          options = nodiratime (noatime ext4_readonly);
        }))
    mount_boot_if (lookup boot partitions) rootfs

  -- A partition that is mounted already is skipped, with a warning.
  mount_unless : Text → PartitionName → Text → MountOptions → Bool → Boot InitramfsError (Unit {0})
  unfolding checked_mount
  mount_unless dev name target options true = pure tt
  mount_unless dev name target options false =
      map_error filesystem (checked_mount dev name ext4 target options)

  mount_remaining :
      Option Text → PartitionName → Text → MountOptions → Boot InitramfsError (Unit {0})
  unfolding mount_unless is_path_mounted
  mount_remaining none name target options = pure tt
  mount_remaining (some dev) name target options = do
    mounted ← fs (λ s. (is_path_mounted S target s, s))
    mount_unless dev name target options mounted

  unfoldable pub mount_remaining_partitions : Partitions → Text → Boot InitramfsError (Unit {0})
  unfolding mount_remaining mount_tmpfs
  mount_remaining_partitions partitions rootfs = do
    let on_rootfs = path_join rootfs
    let quiet = λ (o : MountOptions). nodiratime (noatime o)
    mount_remaining (lookup factory partitions) factory (on_rootfs factory_mount)
        (quiet ext4_readonly)
    mount_remaining (lookup cert partitions) cert (on_rootfs cert_mount) (quiet ext4_readwrite)
    mount_remaining (lookup etc partitions) etc (on_rootfs etc_mount) (quiet ext4_readwrite)
    mount_remaining (lookup data_part partitions) data_part (on_rootfs data_mount)
        (quiet ext4_readwrite)
    fs (mount_tmpfs S (on_rootfs var_volatile) no_flags none)

  -- `mount_tracked_partition`, with the tracked mounts newest first.
  abbrev pub track :
      List Text
      → Text
      → Result InitramfsError (Unit {0}) × (OdsStatus × S.State)
      → Result InitramfsError (Unit {0}) × (List Text × (OdsStatus × S.State))
  track mounts target (ok _, t) = (ok tt, (target ∷ mounts, t))
  track mounts target (err e, t) = (err e, (mounts, t))

  unfoldable pub mount_tracked_partition :
      Partitions
      → PartitionName
      → Text
      → MountOptions
      → FsType
      → Text
      → Exec InitramfsError (List Text × (OdsStatus × S.State)) (Unit {0})
  unfolding checked_mount
  mount_tracked_partition partitions name point options fstype rootfs (mounts, t) =
      elim (lookup name partitions) [
        | none ↦ (ok tt, (mounts, t))
        | some dev ↦
            let target = path_join rootfs point in
            track mounts target
              (map_error filesystem (checked_mount dev name fstype target options) t)
      ]

  -- The modes are `ROOT_ONLY_DIR_MODE` and `ROOT_ONLY_FILE_MODE` of src/filesystem/mod.rs.
  create_root_only_dir : Text → Exec IoError S.State (Unit {0})
  create_root_only_dir path = do S.create_dir_all path; S.set_permissions path 0o700

  create_root_only_file : Text → Exec IoError S.State (Unit {0})
  create_root_only_file path = do S.create_file path 0o600; S.set_permissions path 0o600

  unfoldable pub write_fsck_log : Text → PartitionName → Text → Exec IoError S.State Text
  unfolding create_root_only_dir create_root_only_file
  write_fsck_log log_dir name output = do
    let log_path = path_join log_dir (name_text name ++ lit ".log")
    create_root_only_dir log_dir
    create_root_only_file log_path
    S.write_all log_path output
    S.sync_all log_path
    S.sync_all log_dir
    pure log_path

  -- `is_path_mounted(…).unwrap_or(false)`
  data_mounted : Text → S.State → Bool
  unfolding is_path_mounted
  data_mounted rootfs s = elim (is_path_mounted S (path_join rootfs data_mount) s) [
    | ok mounted ↦ mounted
    | err e ↦ false
  ]

-- The code of a record as the exit code that it was.
abbrev pub exit_code_of : FsckStatus → FsckExitCode
exit_code_of status = record { bits = status.code }

module _ (B : BootEnv) where
  save_if_available : PartitionName → FsckStatus → BootEnvState B → BootEnvState B
  save_if_available name status (available b) =
      available (B.save_fsck_status name (exit_code_of status) status.output b).1
  save_if_available name status (degraded e) = degraded e

  module _ (S : System) where
    log_if_mounted : Text → Bool → PartitionName → Text → S.State → S.State
    unfolding write_fsck_log
    log_if_mounted rootfs mounted name output s =
        if is_empty output
        then s
        else if mounted
        then (write_fsck_log S (path_join (path_join rootfs data_mount) (lit "log/fsck")) name
            output s).1
        else s

    persist_each :
        Text
        → Bool
        → Dict PartitionName FsckStatus
        → BootEnvState B × S.State
        → BootEnvState B × S.State
    unfolding save_if_available log_if_mounted
    persist_each rootfs mounted [] (b, s) = (b, s)
    persist_each rootfs mounted ((name, status) ∷ rest) (b, s) = persist_each rootfs mounted rest (
        if is_clean (exit_code_of status)
        then (b, s)
        else (save_if_available name status b, log_if_mounted rootfs mounted name status.output s))

    -- Failures are logged only.
    unfoldable pub persist_fsck_results :
        OdsStatus → Text → BootEnvState B × S.State → BootEnvState B × S.State
    unfolding persist_each data_mounted
    persist_fsck_results o rootfs (b, s) =
        persist_each rootfs (data_mounted S rootfs s) o.fsck (b, s)

  abbrev cleared : PartitionName → B.State → B.State
  cleared name b = (B.clear_fsck_status name b).1

  drain_result :
      PartitionName
      → Result BootEnvError (Option FsckRecord)
      → OdsStatus
      → B.State
      → OdsStatus × B.State
  unfolding record_fsck_result
  drain_result name (err (invalid_value _ _)) o b = (o, cleared name b)
  drain_result name (err e) o b = (o, b)
  drain_result name (ok none) o b = (o, b)
  drain_result name (ok (some r)) o b =
      (record_fsck_result name r.exit_code r.output o, cleared name b)

  drain_one : PartitionName → OdsStatus × B.State → OdsStatus × B.State
  unfolding drain_result
  drain_one name (o, b) = let (r, b') = B.get_fsck_status name b in drain_result name r o b'

  drain_each : List PartitionName → OdsStatus × B.State → OdsStatus × B.State
  unfolding drain_one
  drain_each [] t = t
  drain_each (name ∷ names) t = drain_each names (drain_one name t)

  unfoldable pub drain_fsck_env : OdsStatus → BootEnvState B → OdsStatus × BootEnvState B
  unfolding drain_each
  drain_fsck_env o (available b) =
      let (o', b') = drain_each fsck_partitions (o, b) in (o', available b')
  drain_fsck_env o (degraded e) = (o, degraded e)
