-- ===== src/Mode/Normal/Marker.antt =====
-- What the marker of src/mode/normal.rs does to the next boot.
use omnect_os_init.Base.{◌≡◌, refl, Bool, true, false, ◌&&◌, some, if◌then◌else◌}
use omnect_os_init.Bootloader.Env.{
  BootEnv, available, marker, holds_marker, is_first_boot_done, set_first_boot_done,
}
use omnect_os_init.Bootloader.Key.{first_boot_done, key_equality}
use omnect_os_init.Init.{detect_first_boot}
use omnect_os_init.Bootloader.Laws.{KeepsValues}
use omnect_os_init.Mode.Normal.{is_none, marker_due, write_first_boot_marker}
use omnect_os_init.Runtime.Ods.{OdsStatus}

module _ (B : BootEnv) (K : KeepsValues B) where
  -- A marker that the environment holds ends the first boot.
  detect_first_boot-marked :
      (b : B.State)
      → K.value b first_boot_done ≡ some marker
      → (detect_first_boot B (available b)).0 ≡ false
  unfolding detect_first_boot is_first_boot_done holds_marker
  detect_first_boot-marked b h = rw (K.get-value first_boot_done b, h) refl

  value-marked : (b : B.State) → K.value (set_first_boot_done B b).1 first_boot_done ≡ some marker
  unfolding set_first_boot_done
  value-marked b = K.value-marked first_boot_done b

  -- The normal mode closes the gate of the first boot exactly when it was a first boot and neither
  -- the resize nor the extra boot arguments reported a failure: then the next boot is not a first
  -- one, and otherwise it counts as this environment had it.
  pub detect_first_boot-write_first_boot_marker :
      (o : OdsStatus) (b : B.State)
      → (detect_first_boot B (write_first_boot_marker B (marker_due o) (available b))).0 ≡ (
          if o.first_boot && is_none o.resize_data && is_none o.extra_bootargs
          then false
          else (detect_first_boot B (available b)).0)
  unfolding marker_due write_first_boot_marker
  detect_first_boot-write_first_boot_marker o b =
      written (o.first_boot && is_none o.resize_data && is_none o.extra_bootargs)
    where
      written :
          (due : Bool)
          → (detect_first_boot B (write_first_boot_marker B due (available b))).0
            ≡ (if due then false else (detect_first_boot B (available b)).0)
      written true = detect_first_boot-marked (set_first_boot_done B b).1 (value-marked b)
      written false = refl
