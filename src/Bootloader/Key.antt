-- ===== src/Bootloader/Key.antt =====
-- `BootEnvKey` of src/bootloader/mod.rs.
pub mod Distinct
use omnect_os_init.Base.{◌++◌}
use omnect_os_init.Base.Text.{Text, lit}
use omnect_os_init.Base.Equality.{Eq, eq_of_discrete}
use omnect_os_init.Partition.Name.{PartitionName, name_discrete, name_text}

pub data BootEnvKey : Type 0 where
  validate_update validate_update_failed bootloader_updated : BootEnvKey
  fsck_status : PartitionName → BootEnvKey
  first_boot_done extra_boot_args factory_reset factory_reset_last_error : BootEnvKey
  flash_mode flash_mode_devpath flash_mode_url flash_mode_url_sha256 : BootEnvKey

unfoldable pub key_discrete : Discrete BootEnvKey
key_discrete = hlevel name_discrete

instance abbrev pub key_equality : Eq BootEnvKey
key_equality = eq_of_discrete key_discrete

-- `as_str`
unfoldable pub key_text : BootEnvKey → Text
unfolding lit name_text
key_text validate_update = lit "omnect_validate_update"
key_text validate_update_failed = lit "omnect_validate_update_failed"
key_text bootloader_updated = lit "omnect_bootloader_updated"
key_text (fsck_status p) = lit "omnect_fsck_" ++ name_text p
key_text first_boot_done = lit "omnect_first_boot_done"
key_text extra_boot_args = lit "omnect_extra_bootargs"
key_text factory_reset = lit "factory-reset"
key_text factory_reset_last_error = lit "omnect_factory_reset_last_error"
key_text flash_mode = lit "flash-mode"
key_text flash_mode_devpath = lit "flash-mode-devpath"
key_text flash_mode_url = lit "flash-mode-url"
key_text flash_mode_url_sha256 = lit "flash-mode-url-sha256"
