-- ===== src/Mode/Normal.antt =====
-- src/mode/normal.rs: when the first boot counts as done.
pub mod Marker
pub mod Run
use omnect_os_init.Base.{Bool, true, false, ◌&&◌, Option, none, some}
use omnect_os_init.Bootloader.Env.{BootEnv, BootEnvState, available, degraded, set_first_boot_done}
use omnect_os_init.Runtime.Ods.{OdsStatus}

abbrev pub is_none : {A : Type 0} → Option A → Bool
is_none none = true
is_none (some a) = false

-- With the feature `resize-data`.
unfoldable pub resize_succeeded : OdsStatus → Bool
resize_succeeded o = is_none o.resize_data

unfoldable pub extra_bootargs_applied_ok : OdsStatus → Bool
extra_bootargs_applied_ok o = is_none o.extra_bootargs

-- The condition that `run` gives to `write_first_boot_marker`.
unfoldable pub marker_due : OdsStatus → Bool
unfolding resize_succeeded extra_bootargs_applied_ok
marker_due o = o.first_boot && resize_succeeded o && extra_bootargs_applied_ok o

-- A failed write is logged only, and the next boot tries again.
unfoldable pub write_first_boot_marker : (B : BootEnv) → Bool → BootEnvState B → BootEnvState B
unfolding set_first_boot_done
write_first_boot_marker B true (available b) = available (set_first_boot_done B b).1
write_first_boot_marker B false (available b) = available b
write_first_boot_marker B first_boot (degraded e) = degraded e
