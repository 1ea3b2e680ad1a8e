-- ===== src/Filesystem/Paths.antt =====
-- `mount_points` of src/filesystem/overlayfs.rs, relative to the root file system.
use omnect_os_init.Base.Text.{Text, lit}

unfoldable pub boot_mount : Text
unfolding lit
boot_mount = lit "boot"

unfoldable pub factory_mount : Text
unfolding lit
factory_mount = lit "mnt/factory"

unfoldable pub cert_mount : Text
unfolding lit
cert_mount = lit "mnt/cert"

unfoldable pub etc_mount : Text
unfolding lit
etc_mount = lit "mnt/etc"

unfoldable pub data_mount : Text
unfolding lit
data_mount = lit "mnt/data"

unfoldable pub var_volatile : Text
unfolding lit
var_volatile = lit "var/volatile"
