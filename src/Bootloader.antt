-- ===== src/Bootloader.antt =====
-- src/bootloader: the keys of the boot environment, its interface and the backends.
pub mod Key
pub mod Record
pub mod Truncate
pub mod Env
pub mod Uboot
pub mod Grub
pub mod Laws
pub mod Packed
