-- ===== src/Config/BuildConstant.antt =====
-- `BuildConstant` of src/config/mod.rs.
use omnect_os_init.Base.Text.{Text, lit}

pub data BuildConstant : Type 0 where
  data_size bootloader_start uboot_env1_start uboot_env2_start uboot_env_size : BuildConstant
  boot_start boot_size omnect_user_id : BuildConstant

unfoldable pub constant_text : BuildConstant → Text
unfolding lit
constant_text data_size = lit "DATA_SIZE"
constant_text bootloader_start = lit "BOOTLOADER_START"
constant_text uboot_env1_start = lit "UBOOT_ENV1_START"
constant_text uboot_env2_start = lit "UBOOT_ENV2_START"
constant_text uboot_env_size = lit "UBOOT_ENV_SIZE"
constant_text boot_start = lit "BOOT_START"
constant_text boot_size = lit "BOOT_SIZE"
constant_text omnect_user_id = lit "OMNECT_USER_ID"
