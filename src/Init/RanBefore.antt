-- ===== src/Init/RanBefore.antt =====
-- A device that ran before is not taken for one that boots first, for an environment whose reads and
-- writes may fail.
use omnect_os_init.Base.{
  ◌≡◌, refl, Bool, true, false, ◌||◌, List, [], ◌∷◌, Option, Result, ok, err, any, if◌then◌else◌,
  arith, inl, inr, Bool-cases,
}
use omnect_os_init.Base.Equality.{◌=?◌}
use omnect_os_init.Base.Text.{Text}
use omnect_os_init.Bootloader.Env.{
  succeeded, BootEnv, available, is_set, holds_marker, is_flag_set, is_first_boot_done, map_value,
  update_flags,
}
use omnect_os_init.Bootloader.Key.{BootEnvKey, key_equality, first_boot_done}
use omnect_os_init.Error.{BootEnvError}
use omnect_os_init.Init.{detect_first_boot, none_set, or_default}

-- The values with one key written.
abbrev pub store : BootEnvKey → Option Text → (BootEnvKey → Option Text) → BootEnvKey → Option Text
store key v m j = if key =? j then v else m j

-- What a backend keeps whose operations may fail: a read changes no value and gives the value when
-- it succeeds, and a write that fails changes nothing.
pub record FailsCleanly (B : BootEnv) : Type 0 where
  pub value : B.State → BootEnvKey → Option Text
  pub value-get : (key : BootEnvKey) (b : B.State) → value (B.get_env key b).1 ≡ value b
  pub get-value :
      (key : BootEnvKey) (b : B.State) (v : Option Text)
      → (B.get_env key b).0 ≡ ok v
      → v ≡ value b key
  pub value-set :
      (key : BootEnvKey) (v : Option Text) (b : B.State)
      → value (B.set_env key v b).1
        ≡ (if succeeded (B.set_env key v b).0 then store key v (value b) else value b)

-- The environment shows that the device ran before: the marker, or a flag of an update.
abbrev pub ran_before : (BootEnvKey → Option Text) → Bool
ran_before m = holds_marker (m first_boot_done) || any (λ key. is_set (m key)) update_flags

reads_true :
    {S : Type 0} (test : Option Text → Bool) (p : Result BootEnvError (Option Text) × S)
    (v : Option Text)
    → ((w : Option Text) → p.0 ≡ ok w → w ≡ v)
    → test v ≡ true
    → (or_default true (map_value test p)).0 ≡ true
reads_true test (ok w, s) v h t = rw (h w refl) t
reads_true test (err e, s) v h t = refl

or_default-state :
    {S : Type 0} (d : Bool) (test : Option Text → Bool) (p : Result BootEnvError (Option Text) × S)
    → (or_default d (map_value test p)).1 ≡ p.1
or_default-state d test (ok v, s) = refl
or_default-state d test (err e, s) = refl

||-right : (a b : Bool) → a || b ≡ true → a ≡ false → b ≡ true
||-right a b h e = ground arith

not_set : (a b : Bool) → a ≡ false → (b ≡ true → a ≡ true) → b ≡ false
not_set a true e h = cc (h refl)
not_set a false e h = refl

module _ (B : BootEnv) (K : FailsCleanly B) where
  none_set-any :
      (keys : List BootEnvKey) (b : B.State)
      → any (λ key. is_set (K.value b key)) keys ≡ true
      → (none_set B keys b).0 ≡ false
  unfolding none_set is_flag_set
  none_set-any [] b h = cc
  none_set-any (key ∷ keys) b h =
      let p = B.get_env key b in
      elim (Bool-cases (or_default true (map_value is_set p)).0) [
        | inl set ↦ rw set refl
        | inr unset ↦
            rw (unset, or_default-state true is_set p)
              (none_set-any keys p.1 (
                rw (K.value-get key b) (
                  ||-right _ _ h
                    (not_set _ _ unset (reads_true is_set p (K.value b key) (K.get-value key b))))))
      ]

  pub detect_first_boot-ran_before :
      (b : B.State) → ran_before (K.value b) ≡ true → (detect_first_boot B (available b)).0 ≡ false
  unfolding detect_first_boot is_first_boot_done
  detect_first_boot-ran_before b h =
      let p = B.get_env first_boot_done b in
      elim (Bool-cases (or_default true (map_value holds_marker p)).0) [
        | inl done ↦ rw done refl
        | inr more ↦
            rw (more, or_default-state true holds_marker p)
              (none_set-any update_flags p.1 (
                rw (K.value-get first_boot_done b) (
                  ||-right _ _ h (
                    not_set _ _ more (
                      reads_true holds_marker p (K.value b first_boot_done)
                        (K.get-value first_boot_done b))))))
      ]
