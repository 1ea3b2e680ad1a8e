-- ===== src/Filesystem/BootSequence/Distinct.antt =====
-- The mounts of a boot keep one record for each partition in the status.
use omnect_os_init.Base.{
  refl, Bool, true, false, [], ◌∷◌, Option, none, some, Result, ok, err, arith, inl, inr,
  Bool-cases,
}
use omnect_os_init.Base.Dict.{Dict, lookup, insert, lookup-insert}
use omnect_os_init.Base.Equality.{◌=?◌}
use omnect_os_init.Base.Exec.{
  Exec, Ensures, continue-Ensures, ◌>>=◌, pure, map_error, with_error, on_second, beside,
}
use omnect_os_init.Base.Text.{Text}
use omnect_os_init.Error.{FilesystemError, fsck_requires_reboot, InitramfsError, filesystem}
use omnect_os_init.Filesystem.BootSequence.{
  Partitions, record_result, fsck_and_record, checked_mount, mount_unless, mount_remaining,
  mount_remaining_partitions,
}
use omnect_os_init.Filesystem.BootSequence.Carry.{DistinctKeys}
use omnect_os_init.Filesystem.ExitCode.{FsckExitCode, is_clean}
use omnect_os_init.Filesystem.Fsck.{FsckResult, check_filesystem_lenient}
use omnect_os_init.Filesystem.Mount.{MountOptions}
use omnect_os_init.Filesystem.System.{System}
use omnect_os_init.Filesystem.Types.{FsType, ext4}
use omnect_os_init.Partition.Name.{PartitionName, factory, cert, etc, data_part, name_equality}
use omnect_os_init.Runtime.Ods.{OdsStatus, FsckStatus, record_fsck_result}

DistinctKeys-insert :
    (k : PartitionName) (v : FsckStatus) (d : Dict PartitionName FsckStatus)
    → DistinctKeys d
    → DistinctKeys (insert k v d)
unfolding insert lookup
DistinctKeys-insert k v [] h = (refl, tt)
DistinctKeys-insert k v ((j, w) ∷ d) h = elim (Bool-cases (j =? k)) [
  | inl same ↦ rw same (rw (← (name_equality.beq_iff j k).0 same) h.0, h.1)
  | inr different ↦ rw different (
    ground (arith, lookup-insert k j v d, name_equality.beq_iff k j, name_equality.beq_iff j k),
    DistinctKeys-insert k v d h.1,
  )
]

abbrev pub IsDistinct : OdsStatus → Type 0
IsDistinct o = DistinctKeys o.fsck

record_fsck_result-IsDistinct :
    (name : PartitionName) (code : FsckExitCode) (output : Text) (o : OdsStatus)
    → IsDistinct o
    → IsDistinct (record_fsck_result name code output o)
unfolding record_fsck_result
record_fsck_result-IsDistinct name code output o h = elim (Bool-cases (is_clean code)) [
  | inl clean ↦ rw clean h
  | inr unclean ↦ rw unclean (DistinctKeys-insert name _ o.fsck h)
]

record_result-IsDistinct :
    (name : PartitionName) (r : Result FilesystemError FsckResult) (o : OdsStatus)
    → IsDistinct o
    → IsDistinct (record_result name r o).1
unfolding record_result
record_result-IsDistinct name (ok r) o h =
    record_fsck_result-IsDistinct name r.exit_code r.output o h
record_result-IsDistinct name (err (fsck_requires_reboot d code output)) o h =
    record_fsck_result-IsDistinct name code output o h
record_result-IsDistinct name (err _) o h = h

module _ (S : System) where
  abbrev pub Keeps : {E A : Type 0} → Exec E (OdsStatus × S.State) A → Type 0
  Keeps m =
      (t : OdsStatus × S.State)
      → IsDistinct t.0
      → Ensures (λ _ u. IsDistinct u.0) (λ u. IsDistinct u.0) (m t)

  Keeps-bind :
      {E A C : Type 0} (m : Exec E (OdsStatus × S.State) A) (f : A → Exec E (OdsStatus × S.State) C)
      → Keeps m
      → ((a : A) → Keeps (f a))
      → Keeps (m >>= f)
  unfolding ◌>>=◌
  Keeps-bind m f first rest t h =
      continue-Ensures (λ _ u. IsDistinct u.0) (λ _ u. IsDistinct u.0) (λ u. IsDistinct u.0) f (m t)
        (first t h) (λ a u k. rest a u k)

  of_state :
      {E A : Type 0} (p : Result E A × (OdsStatus × S.State))
      → IsDistinct p.1.0
      → Ensures (λ _ u. IsDistinct u.0) (λ u. IsDistinct u.0) p
  of_state (ok a, t) h = h
  of_state (err e, t) h = h

  of_mapped :
      {E F A : Type 0} (f : E → F) (p : Result E A × (OdsStatus × S.State))
      → Ensures (λ _ u. IsDistinct u.0) (λ u. IsDistinct u.0) p
      → Ensures (λ _ u. IsDistinct u.0) (λ u. IsDistinct u.0) (with_error f p)
  of_mapped f (ok a, t) h = h
  of_mapped f (err e, t) h = h

  Keeps-map_error :
      {E F A : Type 0} (f : E → F) (m : Exec E (OdsStatus × S.State) A)
      → Keeps m
      → Keeps (map_error f m)
  unfolding map_error
  Keeps-map_error f m k t h = of_mapped f (m t) (k t h)

  Keeps-files : {E A : Type 0} (m : Exec E S.State A) → Keeps (on_second m)
  unfolding on_second
  Keeps-files m (o, s) h = of_state (beside o (m s)) h

  Keeps-pure : {A : Type 0} (a : A) → Keeps {E = InitramfsError} (pure a)
  unfolding pure
  Keeps-pure a t h = h

  fsck_and_record-Keeps :
      (dev : Text) (name : PartitionName) (fstype : FsType)
      → Keeps (fsck_and_record S dev name fstype)
  unfolding fsck_and_record
  fsck_and_record-Keeps dev name fstype (o, s) h =
      of_state _ (record_result-IsDistinct name (check_filesystem_lenient S dev fstype s).0 o h)

  checked_mount-Keeps :
      (dev : Text) (name : PartitionName) (fstype : FsType) (target : Text) (options : MountOptions)
      → Keeps (checked_mount S dev name fstype target options)
  unfolding checked_mount
  checked_mount-Keeps dev name fstype target options =
      Keeps-bind _ _ (fsck_and_record-Keeps dev name fstype) (λ _. Keeps-files _)

  mount_unless-Keeps :
      (dev : Text) (name : PartitionName) (target : Text) (options : MountOptions) (mounted : Bool)
      → Keeps (mount_unless S dev name target options mounted)
  unfolding mount_unless
  mount_unless-Keeps dev name target options true = Keeps-pure tt
  mount_unless-Keeps dev name target options false =
      Keeps-map_error filesystem _ (checked_mount-Keeps dev name ext4 target options)

  mount_remaining-Keeps :
      (dev : Option Text) (name : PartitionName) (target : Text) (options : MountOptions)
      → Keeps (mount_remaining S dev name target options)
  unfolding mount_remaining
  mount_remaining-Keeps none name target options = Keeps-pure tt
  mount_remaining-Keeps (some dev) name target options =
      Keeps-bind _ _ (Keeps-map_error filesystem _ (Keeps-files _))
        (mount_unless-Keeps dev name target options)

  pub mount_remaining_partitions-Keeps :
      (partitions : Partitions) (rootfs : Text)
      → Keeps (mount_remaining_partitions S partitions rootfs)
  unfolding mount_remaining_partitions
  mount_remaining_partitions-Keeps partitions rootfs =
      Keeps-bind _ _ (mount_remaining-Keeps _ factory _ _) (λ _.
        Keeps-bind _ _ (mount_remaining-Keeps _ cert _ _) (λ _.
          Keeps-bind _ _ (mount_remaining-Keeps _ etc _ _) (λ _.
            Keeps-bind _ _ (mount_remaining-Keeps _ data_part _ _)
              (λ _. Keeps-map_error filesystem _ (Keeps-files _)))))
