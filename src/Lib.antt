-- ===== src/Lib.antt =====
-- The init of omnect-os, the first process of the initramfs: it finds the root device, checks and
-- mounts the partitions, opens the boot environment of the boot loader, chooses a boot mode and hands
-- over to the system, or ends by the recovery policy. This library models the decisions and the state
-- that these parts keep, and proves what the parts promise to each other.
--
-- The files, with the sources they model:
--   - Base: texts, numbers and paths of the Rust library, fallible operations on a state (Base/Exec),
--     results, and dictionaries for hash maps.
--   - Recovery and Main: `decide` of src/recovery.rs and `main` and `handle_fatal_error` of
--     src/main.rs. The loops that never return are the constructors of `Ending`.
--   - Error: the error types of src/error.rs with `recovery_class`; Error/Display has their texts.
--   - Init: `update_pending_from_env`, `detect_first_boot` and `apply_boot_env_decision` of
--     src/lib.rs, and `run_init`, the order of the whole init (Init/Run). Init/FirstBoot, Init/Decision,
--     Init/RanBefore and Init/Run/Rollback prove what they decide.
--   - Bootloader: the keys, the `BootEnv` trait with its default methods, and its two backends, of
--     src/bootloader. The trait is a record of operations over a state (Bootloader/Env), which
--     src/bootloader/grub.rs and src/bootloader/uboot.rs fill (Bootloader/Grub, Bootloader/Uboot).
--     Bootloader/Laws says what the rest of the init relies on of a backend. Bootloader/Uboot/Keeps,
--     Bootloader/Grub/Keeps and Bootloader/Grub/Saves derive it for both backends from what is
--     documented of `fw_printenv`, `fw_setenv`, `grub-editenv`, the files and the applets.
--   - Filesystem: src/filesystem. What is asked of the kernel and of programs is the interface
--     `System` (Filesystem/System); Mount, Fsck, Overlay and Reformat model mount.rs, fsck.rs,
--     overlayfs.rs and reformat.rs over it, and BootSequence models boot_sequence.rs. The status of a
--     boot is a part of the state there, and it stays as it was written when an operation fails.
--   - Runtime: the status that src/runtime/omnect_device_service.rs reports (Runtime/Ods), its files
--     (Runtime/OdsFiles) and the update validation (Runtime/Validation), the links of
--     src/runtime/fs_link.rs (Runtime/FsLink) and src/runtime/switch_root.rs (Runtime/SwitchRoot).
--   - Config: the build constants and the kernel command line of src/config/mod.rs.
--   - Partition: the names, the device suffixes, the layout and the links of src/partition. The
--     features `gpt` and `dos` are the two values of `TableKind`.
--   - InitSetup: the two steps of src/init_setup, with the resize itself as a parameter.
--   - Mode: the detection of the boot mode of src/mode/mod.rs (Mode/Detect), with all flash modes and
--     the factory reset built in; the normal mode of src/mode/normal.rs (Mode/Normal, with `run` in
--     Mode/Normal/Run); the factory reset of src/mode/factory_reset (Mode/FactoryReset: its trigger in
--     Config, the preserve list in Preserve, Backup, the texts of the status in Status, the
--     destructive phase in Reset and the whole reset in Run); the configuration of the flash modes
--     (Mode/Flash/Config), and the block map of an image with the copy of its ranges (Mode/Bmap, with
--     Mode/Bmap/Copy, whose source, destination and digest are interfaces); the rewrite of a partition
--     table of src/mode/flash/sfdisk.rs (Mode/Flash/Sfdisk).
--   - Tests: environments and systems in memory, and runs of the theorems on them.
--
-- Texts are lists of characters, with the bytes of a character counted where the source counts bytes.
-- Numbers of 64 bits are natural numbers, with the checks for overflow and the saturation written out
-- as the source has them. Reads of the boot environment may change its state; a theorem that needs an
-- environment that keeps its values or its records says so by a law record (`KeepsValues` and
-- `KeepsRecords` of Bootloader/Laws, whose `Takes` says which values or records a backend takes;
-- `FailsCleanly`) or by a hypothesis on `get_env`. Log lines are not modelled, and
-- neither is the flush of the file systems before a reboot. The parsers and codecs of other packages
-- (JSON, XML, base64, hex, sha256) and the busybox applets are parameters. All functions are
-- structurally recursive. Fuel is used in `decimal`, where the number itself bounds the digits, and in
-- the copy loop, where every turn passes a byte at least, so that the number of bytes is enough turns.
--
-- Not modelled: the two wipes of src/mode/factory_reset/wipe.rs, which are the trait `WipeOps`; the
-- deletion of the initramfs in src/runtime/switch_root.rs; the detection of the root device and the
-- opening of the environment, which wait for devices and look at sysfs; the resize of the data
-- partition; the flash modes with their clones and downloads; src/early_init.rs, src/early_modules and
-- src/logging, which mostly call the kernel and programs. `run_init` takes those that it calls as
-- parameters.
pub mod Base
pub mod Partition
pub mod Filesystem
pub mod Bootloader
pub mod Config
pub mod Mode
pub mod Recovery
pub mod Runtime
pub mod Error
pub mod Main
pub mod Init
pub mod InitSetup
pub mod Tests
