-- ===== src/Filesystem/Types.antt =====
-- `FsType` of src/filesystem/mount.rs.
use omnect_os_init.Base.Text.{Text, lit}

pub data FsType : Type 0 where
  ext4 vfat tmpfs overlay efivarfs devpts : FsType

unfoldable pub fs_text : FsType → Text
unfolding lit
fs_text ext4 = lit "ext4"
fs_text vfat = lit "vfat"
fs_text tmpfs = lit "tmpfs"
fs_text overlay = lit "overlay"
fs_text efivarfs = lit "efivarfs"
fs_text devpts = lit "devpts"
