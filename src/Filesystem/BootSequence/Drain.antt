-- ===== src/Filesystem/BootSequence/Drain.antt =====
-- The way of the fsck records out of the boot environment, and from the boot that found them to the
-- boot that reports them.
use omnect_os_init.Base.{
  ◌≡◌, refl, sym, subst, ◌∙◌, Bool, true, false, List, [], ◌∷◌, Option, none, some, arith,
  if◌then◌else◌, ok, err, Bool-cases, inl, inr, ◌||◌,
}
use omnect_os_init.Base.Dict.{lookup}
use omnect_os_init.Base.Equality.{◌=?◌}
use omnect_os_init.Base.Text.{Text}
use omnect_os_init.Bootloader.Env.{BootEnv, BootEnvState, available, degraded}
use omnect_os_init.Filesystem.BootSequence.{
  fsck_partitions, exit_code_of, persist_fsck_results, drain_result, drain_one, drain_each,
  drain_fsck_env,
}
use omnect_os_init.Filesystem.BootSequence.Checks.{lookup-record_fsck_result}
use omnect_os_init.Bootloader.Laws.{KeepsRecords, gives_record}
use omnect_os_init.Error.{
  invalid_value, env_file_not_found, command_failed, command_exit_code, compression_failed,
  decompression_failed, io,
}
use omnect_os_init.Filesystem.ExitCode.{is_clean}
use omnect_os_init.Filesystem.System.{System}
use omnect_os_init.Partition.Name.{PartitionName, name_equality}
use omnect_os_init.Runtime.Ods.{OdsStatus, FsckStatus, new_status}
use omnect_os_init.Filesystem.BootSequence.Carry.{
  contains, DistinctKeys, Stored, AllTaken, saved, reported, drained, HasState,
  persist_fsck_results-IsSaved,
}

reported-drained : (r : Stored) (old : Option FsckStatus) → reported (drained r) old ≡ old
reported-drained (ok r) old = refl
reported-drained (err (invalid_value _ _)) old = refl
reported-drained (err (env_file_not_found path)) old = refl
reported-drained (err (command_failed command reason)) old = refl
reported-drained (err (command_exit_code command code stderr)) old = refl
reported-drained (err (compression_failed reason)) old = refl
reported-drained (err (decompression_failed reason)) old = refl
reported-drained (err (io e)) old = refl

drained-drained : (r : Stored) → drained (drained r) ≡ drained r
drained-drained (ok r) = refl
drained-drained (err (invalid_value _ _)) = refl
drained-drained (err (env_file_not_found path)) = refl
drained-drained (err (command_failed command reason)) = refl
drained-drained (err (command_exit_code command code stderr)) = refl
drained-drained (err (compression_failed reason)) = refl
drained-drained (err (decompression_failed reason)) = refl
drained-drained (err (io e)) = refl

-- A value at one key, over a function that is the same elsewhere.
at_key :
    {A : Type 0} (name q : PartitionName) (f g : PartitionName → A) (v : A)
    → f name ≡ v
    → ((name =? q) ≡ false → f q ≡ g q)
    → f q ≡ (if name =? q then v else g q)
at_key name q f g v here there = elim (Bool-cases (name =? q)) [
  | inl same ↦
      let e = (name_equality.beq_iff name q).0 same in rw same (subst (λ p. f p ≡ v) e here)
  | inr apart ↦ there apart ∙ rw apart refl
]

module _ (B : BootEnv) (K : KeepsRecords B) where
  drain_result-reported :
      (name q : PartitionName) (r : Stored) (o : OdsStatus) (b : B.State)
      → lookup q (drain_result B name r o b).0.fsck
        ≡ (if name =? q then reported r (lookup q o.fsck) else lookup q o.fsck)
  unfolding drain_result
  drain_result-reported name q (ok none) o b = ground arith
  drain_result-reported name q (ok (some r)) o b =
      ground (arith, lookup-record_fsck_result name q r.exit_code r.output o)
  drain_result-reported name q (err (invalid_value _ _)) o b = ground arith
  drain_result-reported name q (err (env_file_not_found path)) o b = ground arith
  drain_result-reported name q (err (command_failed command reason)) o b = ground arith
  drain_result-reported name q (err (command_exit_code command code stderr)) o b = ground arith
  drain_result-reported name q (err (compression_failed reason)) o b = ground arith
  drain_result-reported name q (err (decompression_failed reason)) o b = ground arith
  drain_result-reported name q (err (io e)) o b = ground arith

  -- Where nothing is cleared the read has left the record as it was.
  drain_result-stored :
      (name q : PartitionName) (r : Stored) (o : OdsStatus) (b : B.State)
      → (gives_record r ≡ false → K.stored b name ≡ r)
      → K.stored (drain_result B name r o b).1 q ≡ (if name =? q then drained r else K.stored b q)
  unfolding drain_result
  drain_result-stored name q (ok none) o b h =
      at_key name q (K.stored b) (K.stored b) _ (h refl) (λ _. refl)
  drain_result-stored name q (ok (some r)) o b h = K.stored-clear name q b
  drain_result-stored name q (err (invalid_value _ _)) o b h = K.stored-clear name q b
  drain_result-stored name q (err (env_file_not_found path)) o b h =
      at_key name q (K.stored b) (K.stored b) _ (h refl) (λ _. refl)
  drain_result-stored name q (err (command_failed command reason)) o b h =
      at_key name q (K.stored b) (K.stored b) _ (h refl) (λ _. refl)
  drain_result-stored name q (err (command_exit_code command code stderr)) o b h =
      at_key name q (K.stored b) (K.stored b) _ (h refl) (λ _. refl)
  drain_result-stored name q (err (compression_failed reason)) o b h =
      at_key name q (K.stored b) (K.stored b) _ (h refl) (λ _. refl)
  drain_result-stored name q (err (decompression_failed reason)) o b h =
      at_key name q (K.stored b) (K.stored b) _ (h refl) (λ _. refl)
  drain_result-stored name q (err (io e)) o b h =
      at_key name q (K.stored b) (K.stored b) _ (h refl) (λ _. refl)

  drain_one-reported :
      (name q : PartitionName) (o : OdsStatus) (b : B.State)
      → lookup q (drain_one B name (o, b)).0.fsck
        ≡ (if name =? q then reported (K.stored b q) (lookup q o.fsck) else lookup q o.fsck)
  unfolding drain_one
  drain_one-reported name q o b =
      drain_result-reported name q (B.get_fsck_status name b).0 o (B.get_fsck_status name b).1
      ∙ rw (K.get-stored name b) (ground (arith, name_equality.beq_iff name q))

  drain_one-stored :
      (name q : PartitionName) (o : OdsStatus) (b : B.State)
      → K.stored (drain_one B name (o, b)).1 q
        ≡ (if name =? q then drained (K.stored b q) else K.stored b q)
  unfolding drain_one
  drain_one-stored name q o b =
      let (r, b') = B.get_fsck_status name b in
      drain_result-stored name q r o b' (λ reads.
        let g : r ≡ K.stored b name = K.get-stored name b in
        K.stored-read name b (rw (← g) reads) ∙ sym g)
      ∙ after (name =? q) refl
    where
      after :
          (hit : Bool)
          → (name =? q) ≡ hit
          → (if hit
              then drained (B.get_fsck_status name b).0
              else K.stored (B.get_fsck_status name b).1 q)
            ≡ (if hit then drained (K.stored b q) else K.stored b q)
      after true same =
          let e = (name_equality.beq_iff name q).0 same in rw (K.get-stored name b, e) refl
      after false apart = K.stored-get name q b apart

  drain_each-reported :
      (q : PartitionName) (names : List PartitionName) (o : OdsStatus) (b : B.State)
      → lookup q (drain_each B names (o, b)).0.fsck
        ≡ (if contains q names then reported (K.stored b q) (lookup q o.fsck) else lookup q o.fsck)
  unfolding drain_each
  drain_each-reported q [] o b = refl
  drain_each-reported q (name ∷ names) o b =
      let (o', b') = drain_one B name (o, b) in
      drain_each-reported q names o' b'
      ∙ rw (drain_one-reported name q o b, drain_one-stored name q o b)
          (merged (name =? q) (contains q names))
    where
      merged :
          (hit later : Bool)
          → (if later
              then reported
                  (if hit then drained (K.stored b q) else K.stored b q)
                  (if hit then reported (K.stored b q) (lookup q o.fsck) else lookup q o.fsck)
              else if hit
              then reported (K.stored b q) (lookup q o.fsck)
              else lookup q o.fsck)
            ≡ (if hit || later then reported (K.stored b q) (lookup q o.fsck) else lookup q o.fsck)
      merged true true = reported-drained (K.stored b q) _
      merged true false = refl
      merged false later = refl

  drain_each-stored :
      (q : PartitionName) (names : List PartitionName) (o : OdsStatus) (b : B.State)
      → K.stored (drain_each B names (o, b)).1 q
        ≡ (if contains q names then drained (K.stored b q) else K.stored b q)
  unfolding drain_each
  drain_each-stored q [] o b = refl
  drain_each-stored q (name ∷ names) o b =
      let (o', b') = drain_one B name (o, b) in
      drain_each-stored q names o' b'
      ∙ rw (drain_one-stored name q o b) (merged (name =? q) (contains q names))
    where
      merged :
          (hit later : Bool)
          → (if later
              then drained (if hit then drained (K.stored b q) else K.stored b q)
              else if hit
              then drained (K.stored b q)
              else K.stored b q)
            ≡ (if hit || later then drained (K.stored b q) else K.stored b q)
      merged true true = drained-drained (K.stored b q)
      merged true false = refl
      merged false later = refl

  -- With a backend that keeps its records, draining an available environment moves them: every
  -- stored record of a partition that fsck runs on that is not clean is reported, over what this
  -- boot reported, and neither a record nor one that cannot be decoded stays stored of such a
  -- partition. What could not be read stays as it is, and nothing is reported or removed of another
  -- partition.
  pub drain_fsck_env-moves :
      (o : OdsStatus) (b : B.State)
      → HasState B (drain_fsck_env B o (available b)).1 (λ b'.
        (q : PartitionName)
        → (lookup q (drain_fsck_env B o (available b)).0.fsck ≡ (
            if contains q fsck_partitions
            then reported (K.stored b q) (lookup q o.fsck)
            else lookup q o.fsck))
          × (K.stored b' q
              ≡ (if contains q fsck_partitions then drained (K.stored b q) else K.stored b q)))
  unfolding drain_fsck_env
  drain_fsck_env-moves o b q =
      (drain_each-reported q fsck_partitions o b, drain_each-stored q fsck_partitions o b)

  module _ (S : System) where
    -- A record survives a reboot: with a backend that keeps the records of this boot that are not
    -- clean, and a status without a partition twice, what the boot persists of a partition that fsck
    -- runs on, if it is not clean, the next boot drains into its own status, with the same code and
    -- output.
    pub drain_fsck_env-persist_fsck_results :
        (o : OdsStatus) (rootfs : Text) (b : B.State) (s : S.State) (q : PartitionName)
        (status : FsckStatus)
        → DistinctKeys o.fsck
        → AllTaken B K o.fsck
        → lookup q o.fsck ≡ some status
        → is_clean (exit_code_of status) ≡ false
        → contains q fsck_partitions ≡ true
        → let env = (persist_fsck_results B S o rootfs (available b, s)).0 in
          lookup q (drain_fsck_env B new_status env).0.fsck ≡ some status
    unfolding drain_fsck_env
    drain_fsck_env-persist_fsck_results o rootfs b s q status distinct taken found unclean checked =
        next (persist_fsck_results B S o rootfs (available b, s)).0
          (persist_fsck_results-IsSaved B K S o rootfs b s distinct taken)
      where
        next :
            (env : BootEnvState B)
            → HasState B env
                (λ b'. (q : PartitionName) → K.stored b' q ≡ saved (lookup q o.fsck) (K.stored b q))
            → lookup q (drain_fsck_env B new_status env).0.fsck ≡ some status
        next (available b') h =
            let h' = h q in let moved = (drain_fsck_env-moves new_status b' q).0 in ground arith
        next (degraded e) h = absurd h
