-- ===== src/Mode.antt =====
-- src/mode: the boot modes and how one is chosen.
pub mod Flash
pub mod Bmap
pub mod FactoryReset
pub mod Detect
pub mod Normal
