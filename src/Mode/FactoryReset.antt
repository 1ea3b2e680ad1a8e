-- ===== src/Mode/FactoryReset.antt =====
-- src/mode/factory_reset: the factory reset.
pub mod Config
pub mod Preserve
pub mod Backup
pub mod Status
pub mod Reset
pub mod Run
