-- ===== src/Recovery.antt =====
-- src/recovery.rs, and the dispatch on its decision in src/main.rs.
use omnect_os_init.Base.{Bool, if◌then◌else◌}

pub data RecoveryClass : Type 0 where
  continue_degraded reboot_to_apply fatal : RecoveryClass

pub data Action : Type 0 where
  continue reboot halt shell : Action

unfoldable pub decide : RecoveryClass → Bool → Bool → Action
decide continue_degraded is_release update_pending = continue
decide reboot_to_apply is_release update_pending = reboot
decide fatal is_release update_pending =
    if update_pending then reboot else if is_release then halt else shell
