-- ===== src/Runtime/Validation/Gate.antt =====
-- The update validation of src/runtime/omnect_device_service.rs against the first boot of src/lib.rs,
-- for an environment whose reads and writes may fail.
use omnect_os_init.Base.{◌≡◌, Bool, true}
use omnect_os_init.Base.Exec.{◌>>◌}
use omnect_os_init.Base.Text.{Text}
use omnect_os_init.Bootloader.Env.{BootEnv, holds_marker}
use omnect_os_init.Bootloader.Key.{key_equality, first_boot_done}
use omnect_os_init.Filesystem.System.{System}
use omnect_os_init.Init.RanBefore.{FailsCleanly, ran_before}

module _ (B : BootEnv) (K : FailsCleanly B) (S : System) where
  abbrev Ran : B.State × S.State → Type 0
  Ran t = ran_before (K.value t.0) ≡ true

  abbrev Marked : B.State × S.State → Type 0
  Marked t = holds_marker (K.value t.0 first_boot_done) ≡ true

  -- The device ran before, and the marker shows it where it is said to be set.
  abbrev Kept : Bool → B.State × S.State → Type 0
  Kept marker_set t = Ran t × (marker_set ≡ true → Marked t)
