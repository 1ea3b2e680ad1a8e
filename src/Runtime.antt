-- ===== src/Runtime.antt =====
-- src/runtime: what the init leaves for omnect-device-service.
pub mod Ods
pub mod OdsFiles
pub mod Validation
pub mod FsLink
pub mod SwitchRoot
