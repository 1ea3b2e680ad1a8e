-- ===== src/InitSetup.antt =====
-- src/init_setup: the steps between the core mounts and the dispatch of the boot mode.
pub mod ExtraBootargs
pub mod ResizeData
