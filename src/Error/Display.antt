-- ===== src/Error/Display.antt =====
-- The `Display` texts that `thiserror` derives from the `#[error]` attributes of src/error.rs.
use omnect_os_init.Base.{Option, none, some, ◌++◌}
use omnect_os_init.Base.Text.{Text, lit}
use omnect_os_init.Base.Text.Numbers.{ℤ, decimal, decimal_ℤ}
use omnect_os_init.Bootloader.Key.{key_text}
use omnect_os_init.Config.BuildConstant.{constant_text}
use omnect_os_init.Filesystem.ExitCode.{code_text}
use omnect_os_init.Mode.Flash.Config.{Url, redacted}
use omnect_os_init.Error.{
  EarlyInitError, BootEnvError, PartitionError, FilesystemError, ConfigError, ResizeDataError,
  LoggingError, FactoryResetError, PartitionTableOperation, dump, apply, lookup, FlashError,
  InitramfsError,
}

-- The `Debug` text of an `Option<i32>`
option_text : Option ℤ → Text
unfolding lit
option_text none = lit "None"
option_text (some n) = lit "Some(" ++ (decimal_ℤ n ++ lit ")")

pub early_init_text : EarlyInitError → Text
early_init_text (EarlyInitError.mount_failed target reason) =
    lit "Failed to mount " ++ (target ++ (lit ": " ++ reason))
early_init_text (EarlyInitError.io e) = lit "IO error: " ++ e.message

unfoldable pub boot_env_text : BootEnvError → Text
unfolding option_text
boot_env_text (BootEnvError.env_file_not_found path) =
    lit "Boot environment file not found: " ++ path
boot_env_text (BootEnvError.command_failed command reason) =
    lit "Command '" ++ (command ++ (lit "' failed: " ++ reason))
boot_env_text (BootEnvError.command_exit_code command code stderr) =
    lit "Command '"
    ++ (command ++ (lit "' exited with code " ++ (option_text code ++ (lit ": " ++ stderr))))
boot_env_text (BootEnvError.compression_failed e) = lit "Compression failed: " ++ e
boot_env_text (BootEnvError.decompression_failed e) = lit "Decompression failed: " ++ e
boot_env_text (BootEnvError.invalid_value key reason) =
    lit "Invalid environment value for '" ++ (key ++ (lit "': " ++ reason))
boot_env_text (BootEnvError.io e) = lit "IO error: " ++ e.message

pub partition_text : PartitionError → Text
partition_text (PartitionError.device_detection e) = lit "device detection failed: " ++ e
partition_text (PartitionError.invalid_partition_table device reason) =
    lit "invalid partition table on " ++ (device ++ (lit ": " ++ reason))
partition_text (PartitionError.symlink_failed link target reason) =
    lit "symlink creation failed for " ++ (link ++ (lit " -> " ++ (target ++ (lit ": " ++ reason))))
partition_text (PartitionError.symlink_remove_failed path reason) =
    lit "symlink removal failed for " ++ (path ++ (lit ": " ++ reason))
partition_text (PartitionError.unknown_root_partition path) =
    lit "unknown root partition " ++ (path ++ lit ": expected root_a or root_b")
partition_text (PartitionError.io e) = lit "I/O error: " ++ e.message

unfoldable pub filesystem_text : FilesystemError → Text
filesystem_text (FilesystemError.mount_failed src_path target reason) =
    lit "Failed to mount " ++ (src_path ++ (lit " on " ++ (target ++ (lit ": " ++ reason))))
filesystem_text (FilesystemError.unmount_failed target reason) =
    lit "Failed to unmount " ++ (target ++ (lit ": " ++ reason))
filesystem_text (FilesystemError.fsck_failed device code output) =
    lit "Filesystem check failed for "
    ++ (device ++ (lit " with code " ++ (code_text code ++ (lit ": " ++ output))))
filesystem_text (FilesystemError.fsck_requires_reboot device code output) =
    lit "Filesystem check for "
    ++ (device ++ (lit " requires reboot (fsck exit code " ++ (code_text code ++ lit ")")))
filesystem_text (FilesystemError.overlay_failed target reason) =
    lit "Overlayfs setup failed for " ++ (target ++ (lit ": " ++ reason))
filesystem_text (FilesystemError.format_failed device fstype reason) =
    lit "Failed to format " ++ (device ++ (lit " as " ++ (fstype ++ (lit ": " ++ reason))))
filesystem_text (FilesystemError.io e) = lit "IO error: " ++ e.message

pub config_text : ConfigError → Text
config_text (ConfigError.cmdline_read_failed e) = lit "failed to read /proc/cmdline: " ++ e.message

pub resize_text : ResizeDataError → Text
resize_text (ResizeDataError.command_failed command code output) =
    lit "Command '"
    ++ (command ++ (lit "' failed with code " ++ (decimal_ℤ code ++ (lit ": " ++ output))))
resize_text (ResizeDataError.invalid_device_path path) =
    lit "Could not determine partition number from device path: " ++ path
resize_text (ResizeDataError.extended_partition_not_found path) =
    lit "Could not find extended partition on " ++ path
resize_text (ResizeDataError.non_utf8_path path) = lit "Device path is not valid UTF-8: " ++ path
resize_text (ResizeDataError.filesystem e) = lit "Filesystem error: " ++ filesystem_text e
resize_text (ResizeDataError.io e) = lit "IO error: " ++ e.message

pub logging_text : LoggingError → Text
logging_text (LoggingError.kmsg_open_failed e) = lit "Failed to open kmsg: " ++ e
logging_text (LoggingError.init_failed e) = lit "Failed to initialize logger: " ++ e
logging_text (LoggingError.io e) = lit "IO error: " ++ e.message

unfoldable pub factory_reset_text : FactoryResetError → Text
factory_reset_text (FactoryResetError.invalid_config e) = lit "Invalid factory-reset config: " ++ e
factory_reset_text (FactoryResetError.missing_field e) =
    lit "Missing field in factory-reset config: " ++ e
factory_reset_text (FactoryResetError.invalid_preserve e) = lit "Invalid preserve list: " ++ e
factory_reset_text (FactoryResetError.backup_failed path reason) =
    lit "Backup failed for " ++ (path ++ (lit ": " ++ reason))
factory_reset_text (FactoryResetError.restore_failed path reason) =
    lit "Restore failed for " ++ (path ++ (lit ": " ++ reason))
factory_reset_text (FactoryResetError.reformat_failed device reason) =
    lit "Reformat failed for " ++ (device ++ (lit ": " ++ reason))
factory_reset_text (FactoryResetError.wipe_failed device reason) =
    lit "Wipe failed for " ++ (device ++ (lit ": " ++ reason))
factory_reset_text (FactoryResetError.mount_error e) = lit "Mount error: " ++ e
factory_reset_text (FactoryResetError.io e) = lit "IO error: " ++ e.message

operation_text : PartitionTableOperation → Text
unfolding lit
operation_text dump = lit "dump"
operation_text apply = lit "apply"
operation_text lookup = lit "lookup"

-- `Display` of a `Url`, which hides its user info and its query.
url_text : Url → Text
url_text u = redacted u.unredacted

pub flash_text : FlashError → Text
flash_text (FlashError.missing_build_constant c) =
    lit "Missing build-time constant: " ++ constant_text c
flash_text (FlashError.invalid_build_constant name reason) =
    lit "Build-time constant " ++ (constant_text name ++ (lit " is unusable: " ++ reason))
flash_text (FlashError.invalid_destination device reason) =
    lit "Destination device " ++ (device ++ (lit " is unusable: " ++ reason))
flash_text (FlashError.invalid_env_value key reason) =
    lit "Boot-env value for '" ++ (key_text key ++ (lit "' is unusable: " ++ reason))
flash_text FlashError.conflicting_triggers =
    lit "a factory reset is queued together with a flash mode; both triggers were cleared, "
    ++ lit "re-queue the one you meant"
flash_text (FlashError.destination_timeout device timeout) =
    lit "Destination device "
    ++ (device ++ (lit " did not appear within " ++ (decimal timeout ++ lit "s")))
flash_text (FlashError.partition_table device operation reason) =
    lit "Partition table "
    ++ (operation_text operation ++ (lit " failed for " ++ (device ++ (lit ": " ++ reason))))
flash_text (FlashError.malformed_dump device reason) =
    lit "Malformed sfdisk dump of " ++ (device ++ (lit ": " ++ reason))
flash_text (FlashError.copy_failed src dst reason) =
    lit "Copy from " ++ (src ++ (lit " to " ++ (dst ++ (lit " failed: " ++ reason))))
flash_text (FlashError.uuid_failed device reason) =
    lit "Failed to assign a new UUID to " ++ (device ++ (lit ": " ++ reason))
flash_text (FlashError.boot_env_write_failed device reason) =
    lit "Failed to write the bootloader environment to " ++ (device ++ (lit ": " ++ reason))
flash_text (FlashError.efi_failed e) = lit "EFI handling failed: " ++ e
flash_text (FlashError.disk_partly_written disk source) =
    disk ++ (lit " may be partly written: " ++ flash_text source)
flash_text (FlashError.stale_partition_table disk source) =
    lit "the kernel may still use the old partition table of "
    ++ (disk ++ (lit ": " ++ flash_text source))
flash_text (FlashError.invalid_bmap path reason) =
    lit "bmap " ++ (path ++ (lit " is unusable: " ++ reason))
flash_text (FlashError.network_failed e) = lit "Network setup failed: " ++ e
flash_text (FlashError.download_failed url reason) =
    lit "Download of " ++ (url_text url ++ (lit " failed: " ++ reason))
flash_text (FlashError.invalid_image path reason) =
    lit "Image " ++ (path ++ (lit " is unusable: " ++ reason))
flash_text (FlashError.path_io path source) = path ++ (lit ": " ++ source.message)
flash_text (FlashError.filesystem e) = lit "Filesystem error: " ++ filesystem_text e
flash_text (FlashError.io e) = lit "IO error: " ++ e.message

unfoldable pub initramfs_text : InitramfsError → Text
initramfs_text (InitramfsError.bootloader e) = lit "BootEnv error: " ++ boot_env_text e
initramfs_text (InitramfsError.degraded_boot e) = lit "degraded boot: " ++ boot_env_text e
initramfs_text (InitramfsError.early_init e) = lit "Early init error: " ++ early_init_text e
initramfs_text (InitramfsError.partition e) = lit "Partition error: " ++ partition_text e
initramfs_text (InitramfsError.filesystem e) = lit "Filesystem error: " ++ filesystem_text e
initramfs_text (InitramfsError.logging e) = lit "Logging error: " ++ logging_text e
initramfs_text (InitramfsError.config e) = lit "Config error: " ++ config_text e
initramfs_text (InitramfsError.resize_data e) = lit "Resize data error: " ++ resize_text e
initramfs_text (InitramfsError.factory_reset e) =
    lit "Factory reset error: " ++ factory_reset_text e
initramfs_text (InitramfsError.flash e) = lit "Flash mode error: " ++ flash_text e
initramfs_text InitramfsError.extra_boot_args_updated =
    lit "extra bootargs updated; reboot required to apply"
initramfs_text InitramfsError.conflicting_update_flags =
    lit "omnect_validate_update and omnect_validate_update_failed are both set"
initramfs_text (InitramfsError.io e) = lit "IO error: " ++ e.message
