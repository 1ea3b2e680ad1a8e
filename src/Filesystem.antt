-- ===== src/Filesystem.antt =====
-- src/filesystem: fsck and its exit codes, mounts and the boot sequence.
pub mod Types
pub mod ExitCode
pub mod System
pub mod Mount
pub mod Fsck
pub mod Paths
pub mod Overlay
pub mod Reformat
pub mod BootSequence
