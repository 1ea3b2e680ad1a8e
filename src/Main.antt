-- ===== src/Main.antt =====
-- src/main.rs: what becomes of the device when the init fails. An ending stands for the loop that
-- the process never leaves, or for the reboot.
use omnect_os_init.Base.{
  ◌≡◌, refl, Bool, true, false, ◌++◌, Option, none, some, if◌then◌else◌, Result, ok, err, ◌⊎◌, ◌↔◌,
  arith,
}
use omnect_os_init.Base.Text.{Text, lit}
use omnect_os_init.Error.{InitramfsError, recovery_class}
use omnect_os_init.Error.Display.{initramfs_text}
use omnect_os_init.Recovery.{
  Action, RecoveryClass, reboot_to_apply, continue_degraded, fatal, decide,
}

-- What the process ends in.
pub data Ending : Type 0 where
  -- the init succeeded, so `main` returns
  returned : Ending
  rebooting : Ending
  -- `halt_with_message`, or the loop before /dev is mounted
  halted : Text → Ending
  -- `spawn_emergency_shell`, before the logger is initialized
  emergency_shell : Ending
  -- `spawn_debug_shell`
  debug_shell : Ending

-- `reboot(2)`: it returns only with an error.
abbrev pub Reboot : Type 0
Reboot = Option Text

abbrev pub reboot_or_halt : Reboot → Ending
reboot_or_halt none = rebooting
reboot_or_halt (some e) = halted (lit "reboot(2) returned unexpectedly after Reboot")

run_action : Reboot → InitramfsError → Bool → Action → Ending
unfolding initramfs_text
run_action r e is_release Action.reboot = reboot_or_halt r
run_action r e is_release Action.halt = halted (lit "FATAL: " ++ initramfs_text e)
run_action r e is_release Action.shell = debug_shell
run_action r e is_release Action.continue =
    if is_release then halted (lit "FATAL (defensive): " ++ initramfs_text e) else debug_shell

unfoldable pub handle_fatal_error :
    Reboot → InitramfsError → (is_release update_pending : Bool) → Ending
unfolding run_action recovery_class decide
handle_fatal_error r e is_release update_pending =
    run_action r e is_release (decide (recovery_class e) is_release update_pending)

-- `main`. The parameters are the outcomes of its three steps; the last one comes with the flag
-- `UPDATE_PENDING` as `run_init` leaves it. The flag is false before.
unfoldable pub main :
    Reboot
    → Bool
    → Result InitramfsError (Unit {0})
    → Result InitramfsError (Unit {0})
    → Result InitramfsError (Unit {0}) × Bool
    → Ending
unfolding handle_fatal_error
main r true (err e) logger init =
    halted (lit "FATAL: Failed to mount essential filesystems: " ++ initramfs_text e)
main r false (err e) logger init = emergency_shell
main r is_release (ok _) (err e) init = handle_fatal_error r e is_release false
main r is_release (ok _) (ok _) (err e, update_pending) =
    handle_fatal_error r e is_release update_pending
main r is_release (ok _) (ok _) (ok _, update_pending) = returned

abbrev pub is_shell : Ending → Bool
is_shell emergency_shell = true
is_shell debug_shell = true
is_shell _ = false

run_action-release :
    (r : Reboot) (e : InitramfsError) (a : Action) (class : RecoveryClass) (pending : Bool)
    → a ≡ decide class true pending
    → is_shell (run_action r e true a) ≡ false
unfolding run_action decide
run_action-release r e a continue_degraded pending h = rw h refl
run_action-release (none) e a reboot_to_apply pending h = rw h refl
run_action-release (some t) e a reboot_to_apply pending h = rw h refl
run_action-release (none) e a fatal true h = rw h refl
run_action-release (some t) e a fatal true h = rw h refl
run_action-release r e a fatal false h = rw h refl

handle_fatal_error-release :
    (r : Reboot) (e : InitramfsError) (pending : Bool)
    → is_shell (handle_fatal_error r e true pending) ≡ false
unfolding handle_fatal_error
handle_fatal_error-release r e pending = run_action-release r e _ (recovery_class e) pending refl

-- A release image never ends in a shell: not when the essential filesystems or the logger fail, not
-- when the init fails with any error, and not when the reboot fails.
pub main-release :
    (r : Reboot) (essential logger : Result InitramfsError (Unit {0}))
    (init : Result InitramfsError (Unit {0}) × Bool)
    → is_shell (main r true essential logger init) ≡ false
unfolding main
main-release r (err e) logger init = refl
main-release r (ok _) (err e) init = handle_fatal_error-release r e false
main-release r (ok _) (ok _) (err e, pending) = handle_fatal_error-release r e pending
main-release r (ok _) (ok _) (ok _, pending) = refl

abbrev pub AsksForReboot : RecoveryClass → Bool → Type 0
AsksForReboot class pending = (class ≡ reboot_to_apply) ⊎ ((class ≡ fatal) × (pending ≡ true))

run_action-rebooting :
    (e : InitramfsError) (class : RecoveryClass) (is_release pending : Bool)
    → (run_action none e is_release (decide class is_release pending) ≡ rebooting)
      ↔ AsksForReboot class pending
unfolding run_action decide
run_action-rebooting e continue_degraded true pending = ground arith
run_action-rebooting e continue_degraded false pending = ground arith
run_action-rebooting e reboot_to_apply is_release pending = ground arith
run_action-rebooting e fatal is_release true = ground arith
run_action-rebooting e fatal true false = ground arith
run_action-rebooting e fatal false false = ground arith

-- With a reboot that works, an error that reaches the top reboots the device exactly when the error
-- asks for a reboot, or when it is fatal while an update is pending, on both kinds of image.
pub handle_fatal_error-rebooting :
    (e : InitramfsError) (is_release pending : Bool)
    → (handle_fatal_error none e is_release pending ≡ rebooting)
      ↔ AsksForReboot (recovery_class e) pending
unfolding handle_fatal_error
handle_fatal_error-rebooting e is_release pending =
    run_action-rebooting e (recovery_class e) is_release pending
