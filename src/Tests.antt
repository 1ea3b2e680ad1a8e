-- ===== src/Tests.antt =====
-- Runs of the model and of its theorems at concrete inputs.
pub mod Tools
pub mod Mock
pub mod BootSequence
pub mod Boot
pub mod Disk
pub mod Records
pub mod Update
pub mod Reset
pub mod Init
pub mod Copy
pub mod Dump
