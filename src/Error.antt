-- ===== src/Error.antt =====
-- src/error.rs: the error types of the subsystems and the error of the init, which the policy of
-- src/recovery.rs reads through its class.
pub mod Display
use omnect_os_init.Base.{ℕ, Option}
use omnect_os_init.Base.Text.{Text}
use omnect_os_init.Base.Text.Numbers.{ℤ}
use omnect_os_init.Bootloader.Key.{BootEnvKey}
use omnect_os_init.Config.BuildConstant.{BuildConstant}
use omnect_os_init.Filesystem.ExitCode.{FsckExitCode}
use omnect_os_init.Mode.Flash.Config.{Url}
use omnect_os_init.Recovery.{RecoveryClass, continue_degraded, reboot_to_apply, fatal}

-- `std::io::ErrorKind`, as far as the program tells the kinds apart.
pub data ErrorKind : Type 0 where
  not_found out_of_memory other : ErrorKind

-- `std::io::Error`: its kind and its message.
pub record IoError : Type 0 where
  pub kind : ErrorKind
  pub message : Text

pub data EarlyInitError : Type 0 where
  mount_failed : (target reason : Text) → EarlyInitError
  io : IoError → EarlyInitError

pub data BootEnvError : Type 0 where
  env_file_not_found : (path : Text) → BootEnvError
  command_failed : (command reason : Text) → BootEnvError
  command_exit_code : (command : Text) (code : Option ℤ) (stderr : Text) → BootEnvError
  compression_failed : Text → BootEnvError
  decompression_failed : Text → BootEnvError
  invalid_value : (key reason : Text) → BootEnvError
  io : IoError → BootEnvError

pub data PartitionError : Type 0 where
  device_detection : Text → PartitionError
  invalid_partition_table : (device reason : Text) → PartitionError
  symlink_failed : (link target reason : Text) → PartitionError
  symlink_remove_failed : (path reason : Text) → PartitionError
  unknown_root_partition : (path : Text) → PartitionError
  io : IoError → PartitionError

pub data FilesystemError : Type 0 where
  mount_failed : (src_path target reason : Text) → FilesystemError
  unmount_failed : (target reason : Text) → FilesystemError
  fsck_failed : (device : Text) (code : FsckExitCode) (output : Text) → FilesystemError
  fsck_requires_reboot : (device : Text) (code : FsckExitCode) (output : Text) → FilesystemError
  overlay_failed : (target reason : Text) → FilesystemError
  format_failed : (device fstype reason : Text) → FilesystemError
  io : IoError → FilesystemError

pub data ConfigError : Type 0 where
  cmdline_read_failed : IoError → ConfigError

pub data ResizeDataError : Type 0 where
  command_failed : (command : Text) (code : ℤ) (output : Text) → ResizeDataError
  invalid_device_path : Text → ResizeDataError
  extended_partition_not_found : Text → ResizeDataError
  non_utf8_path : Text → ResizeDataError
  filesystem : FilesystemError → ResizeDataError
  io : IoError → ResizeDataError

pub data LoggingError : Type 0 where
  kmsg_open_failed : Text → LoggingError
  init_failed : Text → LoggingError
  io : IoError → LoggingError

pub data FactoryResetError : Type 0 where
  invalid_config : Text → FactoryResetError
  missing_field : Text → FactoryResetError
  invalid_preserve : Text → FactoryResetError
  backup_failed : (path reason : Text) → FactoryResetError
  restore_failed : (path reason : Text) → FactoryResetError
  reformat_failed : (device reason : Text) → FactoryResetError
  wipe_failed : (device reason : Text) → FactoryResetError
  mount_error : Text → FactoryResetError
  io : IoError → FactoryResetError

pub data PartitionTableOperation : Type 0 where
  dump apply lookup : PartitionTableOperation

pub data FlashError : Type 0 where
  missing_build_constant : BuildConstant → FlashError
  invalid_build_constant : (name : BuildConstant) (reason : Text) → FlashError
  invalid_destination : (device reason : Text) → FlashError
  invalid_env_value : (key : BootEnvKey) (reason : Text) → FlashError
  conflicting_triggers : FlashError
  destination_timeout : (device : Text) (timeout : ℕ) → FlashError
  partition_table :
      (device : Text) (operation : PartitionTableOperation) (reason : Text) → FlashError
  malformed_dump : (device reason : Text) → FlashError
  copy_failed : (src dst reason : Text) → FlashError
  uuid_failed : (device reason : Text) → FlashError
  boot_env_write_failed : (device reason : Text) → FlashError
  efi_failed : Text → FlashError
  disk_partly_written : (disk : Text) (source : FlashError) → FlashError
  stale_partition_table : (disk : Text) (source : FlashError) → FlashError
  invalid_bmap : (path reason : Text) → FlashError
  network_failed : Text → FlashError
  download_failed : (url : Url) (reason : Text) → FlashError
  invalid_image : (path reason : Text) → FlashError
  path_io : (path : Text) (source : IoError) → FlashError
  filesystem : FilesystemError → FlashError
  io : IoError → FlashError

pub data InitramfsError : Type 0 where
  bootloader : BootEnvError → InitramfsError
  degraded_boot : BootEnvError → InitramfsError
  early_init : EarlyInitError → InitramfsError
  partition : PartitionError → InitramfsError
  filesystem : FilesystemError → InitramfsError
  logging : LoggingError → InitramfsError
  config : ConfigError → InitramfsError
  resize_data : ResizeDataError → InitramfsError
  factory_reset : FactoryResetError → InitramfsError
  flash : FlashError → InitramfsError
  extra_boot_args_updated : InitramfsError
  conflicting_update_flags : InitramfsError
  io : IoError → InitramfsError

unfoldable pub recovery_class : InitramfsError → RecoveryClass
recovery_class (bootloader _) = fatal
recovery_class (degraded_boot _) = fatal
recovery_class (early_init _) = fatal
recovery_class (partition _) = fatal
recovery_class (filesystem (fsck_requires_reboot _ _ _)) = reboot_to_apply
recovery_class (filesystem _) = fatal
recovery_class (logging _) = fatal
recovery_class (config _) = fatal
recovery_class (resize_data (ResizeDataError.filesystem (fsck_requires_reboot _ _ _))) =
    reboot_to_apply
recovery_class (resize_data _) = continue_degraded
recovery_class (factory_reset _) = continue_degraded
recovery_class (flash _) = fatal
recovery_class extra_boot_args_updated = reboot_to_apply
recovery_class conflicting_update_flags = fatal
recovery_class (InitramfsError.io _) = fatal
