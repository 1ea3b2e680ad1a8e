-- ===== src/Filesystem/BootSequence/Carry.antt =====
-- Persisting the fsck records of a boot, for a backend that keeps its records.
use omnect_os_init.Base.{
  ◌≡◌, refl, Bool, true, false, List, [], ◌∷◌, Option, none, some, arith, if◌then◌else◌, Result, ok,
  err, ◌||◌,
}
use omnect_os_init.Base.Dict.{Dict, lookup}
use omnect_os_init.Base.Equality.{◌=?◌}
use omnect_os_init.Base.Text.{Text}
use omnect_os_init.Bootloader.Env.{BootEnv, BootEnvState, available, degraded}
use omnect_os_init.Bootloader.Record.{FsckRecord}
use omnect_os_init.Error.{
  BootEnvError, invalid_value, env_file_not_found, command_failed, command_exit_code,
  compression_failed, decompression_failed, io,
}
use omnect_os_init.Bootloader.Laws.{KeepsRecords}
use omnect_os_init.Filesystem.BootSequence.{
  exit_code_of, save_if_available, log_if_mounted, data_mounted, persist_each, persist_fsck_results,
}
use omnect_os_init.Filesystem.BootSequence.Checks.{status_of}
use omnect_os_init.Filesystem.ExitCode.{is_clean}
use omnect_os_init.Filesystem.System.{System}
use omnect_os_init.Partition.Name.{PartitionName, name_equality}
use omnect_os_init.Runtime.Ods.{OdsStatus, FsckStatus}

-- A list of partitions has a partition.
abbrev pub contains : PartitionName → List PartitionName → Bool
contains q [] = false
contains q (name ∷ names) = (name =? q) || contains q names

-- No key occurs twice.
abbrev pub DistinctKeys : Dict PartitionName FsckStatus → Type 0
DistinctKeys [] = Unit
DistinctKeys ((k, v) ∷ d) = (lookup k d ≡ none) × DistinctKeys d

-- What is stored for a partition, as a read gives it.
abbrev pub Stored : Type 0
Stored = Result BootEnvError (Option FsckRecord)

-- What is stored for a partition after its status of this boot was saved over what was stored.
abbrev pub saved : Option FsckStatus → Stored → Stored
saved none old = old
saved (some status) old =
    if is_clean (exit_code_of status)
    then old
    else ok (some (record { exit_code = exit_code_of status; output = status.output }))

-- What is reported of a partition after what is stored was read over what was reported.
abbrev pub reported : Stored → Option FsckStatus → Option FsckStatus
reported (err e) old = old
reported (ok none) old = old
reported (ok (some r)) old =
    if is_clean r.exit_code then old else some (status_of r.exit_code r.output)

-- What is stored for a partition after it was drained: nothing, where there was a record or one that
-- cannot be decoded, and the same error where the read failed.
abbrev pub drained : Stored → Stored
drained (err (invalid_value _ _)) = ok none
drained (err (env_file_not_found path)) = err (env_file_not_found path)
drained (err (command_failed command reason)) = err (command_failed command reason)
drained (err (command_exit_code command code stderr)) = err (command_exit_code command code stderr)
drained (err (compression_failed reason)) = err (compression_failed reason)
drained (err (decompression_failed reason)) = err (decompression_failed reason)
drained (err (io e)) = err (io e)
drained (ok r) = ok none

-- An environment that is available, with a property of its state.
abbrev pub HasState : (B : BootEnv) → BootEnvState B → (B.State → Type 0) → Type 0
HasState B (available b) P = P b
HasState B (degraded e) P = ⊥

HasState-map :
    {B : BootEnv} {P Q : B.State → Type 0} (env : BootEnvState B)
    → ((b : B.State) → P b → Q b)
    → HasState B env P
    → HasState B env Q
HasState-map (available b) f h = f b h
HasState-map (degraded e) f h = h

module _ (B : BootEnv) (S : System) where
  saved_state-degraded :
      (clean : Bool) (e : BootEnvError) (name : PartitionName) (status : FsckStatus)
      (s s' : S.State)
      → (if◌then◌else◌ {A = BootEnvState B × S.State} clean
          (degraded e, s)
          (save_if_available B name status (degraded e), s')).0
        ≡ degraded e
  unfolding save_if_available
  saved_state-degraded true e name status s s' = refl
  saved_state-degraded false e name status s s' = refl

  persist_each-degraded :
      (e : BootEnvError) (rootfs : Text) (mounted : Bool) (d : Dict PartitionName FsckStatus)
      (t : BootEnvState B × S.State)
      → t.0 ≡ degraded e
      → (persist_each B S rootfs mounted d t).0 ≡ degraded e
  unfolding persist_each
  persist_each-degraded e rootfs mounted [] t h = h
  persist_each-degraded e rootfs mounted ((name, status) ∷ rest) (env, s) h =
      persist_each-degraded e rootfs mounted rest _
        (rw h (saved_state-degraded (is_clean (exit_code_of status)) e name status s _))

  -- Without an environment, persisting opens none.
  pub persist_fsck_results-degraded :
      (e : BootEnvError) (o : OdsStatus) (rootfs : Text) (s : S.State)
      → (persist_fsck_results B S o rootfs (degraded e, s)).0 ≡ degraded e
  unfolding persist_fsck_results
  persist_fsck_results-degraded e o rootfs s =
      persist_each-degraded e rootfs _ o.fsck (degraded e, s) refl

module _ (B : BootEnv) (K : KeepsRecords B) where
  -- The backend stores the record of every status that is not clean.
  abbrev pub AllTaken : Dict PartitionName FsckStatus → Type 0
  AllTaken [] = Unit
  AllTaken ((name, status) ∷ d) =
      (is_clean (exit_code_of status) ≡ false → K.Takes name (exit_code_of status) status.output)
      × AllTaken d

  -- A state that stores what another one does, with a dictionary saved over it.
  abbrev IsSaved : Dict PartitionName FsckStatus → B.State → B.State → Type 0
  IsSaved d b b' = (q : PartitionName) → K.stored b' q ≡ saved (lookup q d) (K.stored b q)

  IsSaved-cons-clean :
      (name : PartitionName) (status : FsckStatus) (rest : Dict PartitionName FsckStatus)
      (b b' : B.State)
      → lookup name rest ≡ none
      → is_clean (exit_code_of status) ≡ true
      → IsSaved rest b b'
      → IsSaved ((name, status) ∷ rest) b b'
  unfolding lookup
  IsSaved-cons-clean name status rest b b' new clean h q =
      let h' = h q in ground (arith, name_equality.beq_iff name q)

  IsSaved-cons :
      (name : PartitionName) (status : FsckStatus) (rest : Dict PartitionName FsckStatus)
      (b b' : B.State)
      → lookup name rest ≡ none
      → is_clean (exit_code_of status) ≡ false
      → K.Takes name (exit_code_of status) status.output
      → IsSaved rest (B.save_fsck_status name (exit_code_of status) status.output b).1 b'
      → IsSaved ((name, status) ∷ rest) b b'
  unfolding lookup
  IsSaved-cons name status rest b b' new clean takes h q =
      let h' = h q in
      let kept = K.stored-save name q (exit_code_of status) status.output b takes in
      ground (arith, name_equality.beq_iff name q)

  module _ (S : System) where
    persist_each-IsSaved :
        (rootfs : Text) (mounted : Bool) (d : Dict PartitionName FsckStatus) (b : B.State)
        (s : S.State)
        → DistinctKeys d
        → AllTaken d
        → HasState B (persist_each B S rootfs mounted d (available b, s)).0 (IsSaved d b)
    unfolding persist_each lookup save_if_available
    persist_each-IsSaved rootfs mounted [] b s distinct taken = λ q. refl
    persist_each-IsSaved rootfs mounted ((name, status) ∷ rest) b s distinct taken =
        step (is_clean (exit_code_of status)) refl
          (λ b s. persist_each-IsSaved rootfs mounted rest b s distinct.1 taken.1)
      where
        next : B.State
        next = (B.save_fsck_status name (exit_code_of status) status.output b).1

        logged : S.State
        logged = log_if_mounted B S rootfs mounted name status.output s

        step :
            (clean : Bool)
            → is_clean (exit_code_of status) ≡ clean
            → ((b : B.State) (s : S.State)
                → HasState B
                    (persist_each B S rootfs mounted rest (available b, s)).0
                    (IsSaved rest b))
            → HasState B
                (persist_each B S rootfs mounted rest
                  (if clean then (available b, s) else (available next, logged))).0
                (IsSaved ((name, status) ∷ rest) b)
        step true clean ih =
            HasState-map _ (λ b'. IsSaved-cons-clean name status rest b b' distinct.0 clean)
              (ih b s)
        step false clean ih =
            HasState-map _
              (λ b'. IsSaved-cons name status rest b b' distinct.0 clean (taken.0 clean))
              (ih next logged)

    -- With a backend that keeps the records of this boot that are not clean, and a status without a
    -- partition twice, persisting the results of the boot stores every one of them, replaces the
    -- record of no other partition, and leaves the environment available.
    pub persist_fsck_results-IsSaved :
        (o : OdsStatus) (rootfs : Text) (b : B.State) (s : S.State)
        → DistinctKeys o.fsck
        → AllTaken o.fsck
        → HasState B
            (persist_fsck_results B S o rootfs (available b, s)).0
            (λ b'. (q : PartitionName) → K.stored b' q ≡ saved (lookup q o.fsck) (K.stored b q))
    unfolding persist_fsck_results
    persist_fsck_results-IsSaved o rootfs b s distinct taken =
        persist_each-IsSaved rootfs (data_mounted S rootfs s) o.fsck b s distinct taken
