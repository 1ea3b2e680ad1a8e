-- ===== src/Filesystem/BootSequence/Stops.antt =====
-- Rules for what holds of the error and the status that a step of the boot leaves when it fails,
-- and the mounts of a boot by these rules.
use omnect_os_init.Base.{
  ◌≡◌, refl, subst, Bool, true, false, ◌⊎◌, inl, inr, Option, none, some, arith, Result, ok, err,
  err-injective,
}
use omnect_os_init.Base.Dict.{lookup}
use omnect_os_init.Base.Exec.{
  Exec, pure, raise, continue, ◌>>=◌, map_error, with_error, with_error-eq-err, on_second, beside,
}
use omnect_os_init.Base.Text.{Text}
use omnect_os_init.Error.{FilesystemError, InitramfsError, filesystem, recovery_class}
use omnect_os_init.Filesystem.BootSequence.Checks.{IsRecorded, fsck_and_record-IsRecorded}
use omnect_os_init.Filesystem.BootSequence.Carry.{contains}
use omnect_os_init.Filesystem.BootSequence.{
  fsck_partitions, create_error, Partitions, fsck_and_record, checked_mount, mount_boot,
  mount_boot_if, root_or_missing, mount_core_partitions, mount_unless, mount_remaining,
  mount_remaining_partitions,
}
use omnect_os_init.Filesystem.Mount.{
  noatime, nodiratime, ext4_readonly, vfat_options, mount_tmpfs, MountOptions, MountPoint, mount,
  mount_call, is_path_mounted,
}
use omnect_os_init.Filesystem.System.{System, no_flags}
use omnect_os_init.Filesystem.Paths.{var_volatile}
use omnect_os_init.Base.FilePath.{path_join}
use omnect_os_init.Filesystem.Types.{FsType, ext4, vfat, tmpfs, fs_text}
use omnect_os_init.Partition.Name.{
  PartitionName, boot, root_current, factory, cert, etc, data_part, name_equality, name_discrete,
}
use omnect_os_init.Recovery.{fatal}
use omnect_os_init.Runtime.Ods.{OdsStatus}

-- An error that stops a boot is fatal, or it is a reboot whose record is in the status.
abbrev pub IsStop : InitramfsError → OdsStatus → Type 0
IsStop e o =
    (recovery_class e ≡ fatal)
    ⊎ ((name : PartitionName) × (cause : FilesystemError) × (e ≡ filesystem cause)
        × IsRecorded name cause o
        × (contains name fsck_partitions ≡ true))

abbrev pub IsFatal : InitramfsError → OdsStatus → Type 0
IsFatal e o = recovery_class e ≡ fatal

-- What holds of the error and the status that an operation leaves, if it fails.
pub record Stops {S A : Type 0} (P : InitramfsError → OdsStatus → Type 0)
    (m : Exec InitramfsError (OdsStatus × S) A) : Type 0 where
  pub at : (t : OdsStatus × S) (e : InitramfsError) → (m t).0 ≡ err e → P e (m t).1.0

module _ {S A : Type 0} {P : InitramfsError → OdsStatus → Type 0} where
  Stops-pure : (a : A) → Stops {S = S} P (pure a)
  unfolding pure
  Stops-pure a = record { at = λ t e h. cc }

  Stops-raise : (e : InitramfsError) → ((o : OdsStatus) → P e o) → Stops {S = S} {A = A} P (raise e)
  unfolding raise
  Stops-raise e h = record { at = λ t e' same. subst (λ x. P x t.0) (err-injective same) (h t.0) }

  Stops-bind :
      {B : Type 0} (m : Exec InitramfsError (OdsStatus × S) A)
      (f : A → Exec InitramfsError (OdsStatus × S) B)
      → Stops P m
      → ((a : A) → Stops P (f a))
      → Stops P (m >>= f)
  unfolding ◌>>=◌
  Stops-bind {B} m f hm hf = record { at = λ t. after (m t) (hm.at t) }
    where
      after :
          (p : Result InitramfsError A × (OdsStatus × S))
          → ((e : InitramfsError) → p.0 ≡ err e → P e p.1.0)
          → (e : InitramfsError) → (continue f p).0 ≡ err e
          → P e (continue f p).1.0
      after (ok a, t) h e same = (hf a).at t e same
      after (err e', t) h e same = subst (λ x. P x t.0) (err-injective {A = B} same) (h e' refl)

  -- An operation that leaves the status alone, with its error converted.
  Stops-map_error :
      {E : Type 0} (g : E → InitramfsError) (m : Exec E S A)
      → ((s : S) (e : E) (o : OdsStatus) → (m s).0 ≡ err e → P (g e) o)
      → Stops P (map_error g (on_second m))
  unfolding map_error on_second
  Stops-map_error {E} g m h = record { at = λ (o, s). after o (m s) (h s) }
    where
      after :
          (o : OdsStatus) (p : Result E A × S)
          → ((e : E) (o : OdsStatus) → p.0 ≡ err e → P (g e) o)
          → (e : InitramfsError) → (with_error g (beside o p)).0 ≡ err e
          → P e (with_error g (beside o p)).1.0
      after o (ok a, s) h e same = cc
      after o (err x, s) h e same = subst (λ y. P y o) (err-injective {A = A} same) (h x o refl)

-- The class of an error of mount(2) is fatal.
mount-fatal :
    (S : System) (mp : MountPoint) (s : S.State) (e : FilesystemError)
    → (mount S mp s).0 ≡ err e
    → recovery_class (filesystem e) ≡ fatal
unfolding mount recovery_class map_error
mount-fatal S mp s e h =
    let (x, e-eq) = with_error-eq-err _ (S.nix_mount (mount_call mp) s) h in rw e-eq

is_path_mounted-fatal :
    (S : System) (path : Text) (s : S.State) (e : FilesystemError)
    → is_path_mounted S path s ≡ err e
    → recovery_class (filesystem e) ≡ fatal
unfolding is_path_mounted recovery_class
is_path_mounted-fatal S path s e h = ground arith

module _ (S : System) {P : InitramfsError → OdsStatus → Type 0}
    (weaken : (e : InitramfsError) (o : OdsStatus) → IsFatal e o → P e o) where
  checked_mount-Stops :
      (dev : Text) (name : PartitionName) (fstype : FsType) (target : Text) (options : MountOptions)
      → ((t : OdsStatus × S.State) (e : FilesystemError)
          → (fsck_and_record S dev name fstype t).0 ≡ err e
          → P (filesystem e) (fsck_and_record S dev name fstype t).1.0)
      → Stops P (map_error filesystem (checked_mount S dev name fstype target options))
  unfolding checked_mount map_error on_second ◌>>=◌
  checked_mount-Stops dev name fstype target options stopped = record {
    at = λ t. after (fsck_and_record S dev name fstype t) (stopped t);
  }
    where
      mp : MountPoint
      mp = record { source = dev; target = target; options = options }

      mounted :
          (o : OdsStatus) (p : Result FilesystemError (Unit {0}) × S.State)
          → ((e : FilesystemError) → p.0 ≡ err e → recovery_class (filesystem e) ≡ fatal)
          → (e : InitramfsError)
          → (with_error {F = InitramfsError} filesystem (beside o p)).0 ≡ err e
          → P e (with_error {F = InitramfsError} filesystem (beside o p)).1.0
      mounted o (ok a, s) h e same = cc
      mounted o (err x, s) h e same =
          subst (λ y. P y o) (err-injective {A = Unit {0}} same) (weaken _ o (h x refl))

      after :
          (p : Result FilesystemError (Unit {0}) × (OdsStatus × S.State))
          → ((e : FilesystemError) → p.0 ≡ err e → P (filesystem e) p.1.0)
          → (e : InitramfsError)
          → (with_error {F = InitramfsError} filesystem
              (continue (λ _. on_second (mount S mp)) p)).0
            ≡ err e
          → P e
              (with_error {F = InitramfsError} filesystem
                (continue (λ _. on_second (mount S mp)) p)).1.0
      after (ok a, (o, s)) h e same = mounted o (mount S mp s) (mount-fatal S mp s) e same
      after (err x, (o, s)) h e same =
          subst (λ y. P y o) (err-injective {A = Unit {0}} same) (h x refl)

  is_path_mounted-Stops :
      (path : Text)
      → Stops {S = S.State} P
          (map_error filesystem (on_second (λ s. (is_path_mounted S path s, s))))
  is_path_mounted-Stops path =
      Stops-map_error filesystem _ λ s e o h. weaken _ o (is_path_mounted-fatal S path s e h)

  mount-Stops : (mp : MountPoint) → Stops P (map_error filesystem (on_second (mount S mp)))
  mount-Stops mp = Stops-map_error filesystem _ λ s e o h. weaken _ o (mount-fatal S mp s e h)

vfat-ne-ext4 : ◌≡◌ {A = FsType} vfat ext4 → ⊥
vfat-ne-ext4 h = cc

module _ (S : System) where
  mount_boot-Stops :
      (dev target : Text) (mounted : Bool) → Stops IsFatal (mount_boot S dev target mounted)
  unfolding mount_boot
  mount_boot-Stops dev target true = Stops-raise _ (λ o. unfold recovery_class in refl)
  mount_boot-Stops dev target false =
      checked_mount-Stops S (λ e o h. h) dev boot vfat target vfat_options
        λ (o, s) e h. absurd (vfat-ne-ext4 (fsck_and_record-IsRecorded S dev boot vfat o s h).1)

  mount_boot_if-Stops :
      (dev : Option Text) (rootfs : Text) → Stops IsFatal (mount_boot_if S dev rootfs)
  unfolding mount_boot_if
  mount_boot_if-Stops none rootfs = Stops-pure tt
  mount_boot_if-Stops (some dev) rootfs =
      Stops-bind _ _ (is_path_mounted-Stops S (λ e o h. h) _) (mount_boot-Stops dev _)

  root_or_missing-Stops : (dev : Option Text) → Stops IsFatal (root_or_missing S dev)
  unfolding root_or_missing
  root_or_missing-Stops none = Stops-raise _ (λ o. unfold recovery_class in refl)
  root_or_missing-Stops (some dev) = Stops-pure dev

  -- Mounting the core partitions never asks for a reboot: whatever stops it is fatal. The boot
  -- partition is vfat, whose fsck has no reboot bit.
  pub mount_core_partitions-fatal :
      (partitions : Partitions) (rootfs : Text) (o : OdsStatus) (s : S.State) {e : InitramfsError}
      → (mount_core_partitions S partitions rootfs (o, s)).0 ≡ err e
      → recovery_class e ≡ fatal
  unfolding mount_core_partitions
  mount_core_partitions-fatal partitions rootfs o s h = stops.at (o, s) _ h
    where
      stops : Stops IsFatal (mount_core_partitions S partitions rootfs)
      stops = Stops-bind _ _ (root_or_missing-Stops (lookup root_current partitions)) λ dev.
          Stops-bind _ _
            (Stops-map_error _ _ (λ s e o h. unfold recovery_class create_error in refl))
            λ _.
              Stops-bind _ _
                (mount-Stops S (λ e o h. h)
                  (record {
                    source = dev;
                    target = rootfs;
                    options = nodiratime (noatime ext4_readonly);
                  }))
                λ _. mount_boot_if-Stops (lookup boot partitions) rootfs

  mount_unless-Stops :
      (dev : Text) (name : PartitionName) (target : Text) (options : MountOptions)
      → contains name fsck_partitions ≡ true
      → (mounted : Bool) → Stops IsStop (mount_unless S dev name target options mounted)
  unfolding mount_unless
  mount_unless-Stops dev name target options checked true = Stops-pure tt
  mount_unless-Stops dev name target options checked false =
      checked_mount-Stops S (λ e o h. inl h) dev name ext4 target options
        λ (o, s) e h.
          inr (name, e, refl, (fsck_and_record-IsRecorded S dev name ext4 o s h).0, checked)

  mount_remaining-Stops :
      (dev : Option Text) (name : PartitionName) (target : Text) (options : MountOptions)
      → contains name fsck_partitions ≡ true
      → Stops IsStop (mount_remaining S dev name target options)
  unfolding mount_remaining
  mount_remaining-Stops none name target options checked = Stops-pure tt
  mount_remaining-Stops (some dev) name target options checked =
      Stops-bind _ _ (is_path_mounted-Stops S (λ e o h. inl h) target)
        (mount_unless-Stops dev name target options checked)

  -- What stops the mounts after the core ones is fatal, or it is a reboot that fsck asked for, and
  -- then the exit code and the output of that run are in the status, under a partition that fsck runs
  -- on, ready to be persisted.
  pub mount_remaining_partitions-IsStop :
      (partitions : Partitions) (rootfs : Text) (o : OdsStatus) (s : S.State) {e : InitramfsError}
      → (mount_remaining_partitions S partitions rootfs (o, s)).0 ≡ err e
      → IsStop e (mount_remaining_partitions S partitions rootfs (o, s)).1.0
  unfolding mount_remaining_partitions mount_tmpfs name_discrete
  mount_remaining_partitions-IsStop partitions rootfs o s h = stops.at (o, s) _ h
    where
      stops : Stops IsStop (mount_remaining_partitions S partitions rootfs)
      stops = Stops-bind _ _ (mount_remaining-Stops _ factory _ _ refl) λ _.
          Stops-bind _ _ (mount_remaining-Stops _ cert _ _ refl) λ _.
            Stops-bind _ _ (mount_remaining-Stops _ etc _ _ refl) λ _.
              Stops-bind _ _ (mount_remaining-Stops _ data_part _ _ refl) λ _.
                mount-Stops S (λ e o h. inl h)
                  (record {
                    source = fs_text tmpfs;
                    target = path_join rootfs var_volatile;
                    options = record { fstype = some tmpfs; flags = no_flags; extra = none };
                  })
