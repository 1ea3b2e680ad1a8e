-- ===== src/Mode/Flash.antt =====
-- src/mode/flash: the flash modes.
pub mod Config
pub mod Sfdisk
