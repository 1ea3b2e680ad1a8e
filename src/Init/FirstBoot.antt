-- ===== src/Init/FirstBoot.antt =====
-- When a boot counts as the first one, for an environment whose reads leave it as it is.
use omnect_os_init.Base.{
  ◌≡◌, refl, sym, subst, ◌∙◌, Bool, true, false, List, [], ◌∷◌, Option, if◌then◌else◌, Result, ok,
  err, ◌↔◌, arith,
}
use omnect_os_init.Base.Text.{Text}
use omnect_os_init.Bootloader.Env.{
  BootEnv, available, is_set, holds_marker, is_flag_set, is_first_boot_done, map_value,
  update_flags,
}
use omnect_os_init.Bootloader.Key.{BootEnvKey, first_boot_done}
use omnect_os_init.Error.{BootEnvError}
use omnect_os_init.Init.{detect_first_boot, none_set, or_default}

-- A read that succeeded, of a value that a test does not hold of.
abbrev pub ReadsFalse : (Option Text → Bool) → Result BootEnvError (Option Text) → Type 0
ReadsFalse test (ok value) = test value ≡ false
ReadsFalse test (err e) = ⊥

abbrev pub IsUnset : Result BootEnvError (Option Text) → Type 0
IsUnset = ReadsFalse is_set

abbrev pub AllUnset : (BootEnvKey → Result BootEnvError (Option Text)) → List BootEnvKey → Type 0
AllUnset read [] = Unit
AllUnset read (key ∷ keys) = IsUnset (read key) × AllUnset read keys

or_default-true_iff :
    {S : Type 0} (test : Option Text → Bool) (p : Result BootEnvError (Option Text) × S)
    → ((or_default true (map_value test p)).0 ≡ false) ↔ ReadsFalse test p.0
or_default-true_iff test (ok v, s) = ground arith
or_default-true_iff test (err e, s) = ground arith

or_default-state :
    {S : Type 0} (d : Bool) (test : Option Text → Bool) (p : Result BootEnvError (Option Text) × S)
    → (or_default d (map_value test p)).1 ≡ p.1
or_default-state d test (ok v, s) = refl
or_default-state d test (err e, s) = refl

module _ (B : BootEnv) (keeps : (key : BootEnvKey) (b : B.State) → (B.get_env key b).1 ≡ b) where
  none_set_iff :
      (keys : List BootEnvKey) (b : B.State)
      → ((none_set B keys b).0 ≡ true) ↔ AllUnset (λ key. (B.get_env key b).0) keys
  unfolding none_set is_flag_set
  none_set_iff [] b = ground arith
  none_set_iff (key ∷ keys) b =
      rw (or_default-state true is_set (B.get_env key b), keeps key b)
        (ground (arith, or_default-true_iff is_set (B.get_env key b), none_set_iff keys b))

  guarded_iff :
      (done : Bool) (b : B.State)
      → ((if done then (false, b) else none_set B update_flags b).0 ≡ true)
        ↔ ((done ≡ false) × AllUnset (λ key. (B.get_env key b).0) update_flags)
  guarded_iff true b = ground arith
  guarded_iff false b = let h = none_set_iff update_flags b in (λ p. (refl, h.0 p), λ p. h.1 p.1)

  -- A boot is the first one exactly when the marker and the update flags can be read, the marker
  -- does not hold the value of a finished first boot, and no update flag is set.
  pub detect_first_boot_iff :
      (b : B.State)
      → ((detect_first_boot B (available b)).0 ≡ true) ↔ (
          ReadsFalse holds_marker (B.get_env first_boot_done b).0
          × AllUnset (λ key. (B.get_env key b).0) update_flags)
  unfolding detect_first_boot is_first_boot_done
  detect_first_boot_iff b =
      let marker = or_default-true_iff holds_marker (B.get_env first_boot_done b) in
      let same : (or_default true (is_first_boot_done B b)).1 ≡ b =
        or_default-state true holds_marker (B.get_env first_boot_done b)
        ∙ keeps first_boot_done b in
      let done : Bool = (or_default true (is_first_boot_done B b)).0 in
      let flags =
        subst
          (λ x.
            ((if done then (false, x) else none_set B update_flags x).0 ≡ true)
            ↔ ((done ≡ false) × AllUnset (λ key. (B.get_env key b).0) update_flags))
          (sym same) (guarded_iff done b) in
      (λ p. let q = flags.0 p in (marker.0 q.0, q.1), λ p. flags.1 (marker.1 p.0, p.1))
