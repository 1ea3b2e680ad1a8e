-- ===== src/Config.antt =====
-- src/config/mod.rs
pub mod BuildConstant
pub mod Cmdline
