-- ===== src/Partition.antt =====
-- src/partition: the root device, the partition map and the partition names.
pub mod Name
pub mod Device
pub mod Layout
pub mod Symlinks
