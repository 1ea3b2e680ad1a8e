-- ===== src/Filesystem/Fsck/Verdicts.antt =====
-- What the exit codes of fsck decide.
use omnect_os_init.Base.{
  ◌≡◌, refl, ap, sym, ◌∙◌, Bool, true, false, ◌&&◌, ◌⊎◌, inl, inr, ◌↔◌, ◌++◌, arith, if◌then◌else◌,
  Result, ok, err, Bool-cases,
}
use omnect_os_init.Base.Exec.{◌>>=◌, map_error, continue-eq-err, with_error, with_error-eq-err}
use omnect_os_init.Base.Text.{Text}
use omnect_os_init.Base.Text.Numbers.{pos}
use omnect_os_init.Error.{FilesystemError, fsck_failed, fsck_requires_reboot}
use omnect_os_init.Filesystem.ExitCode.{
  FsckExitCode, code_unknown, is_mount_safe, is_reboot_required,
}
use omnect_os_init.Filesystem.Fsck.{
  FsckResult, evaluate, tolerate_failure, uses_fsck_bitmask, needs_full_check, full_check,
  fsck_command, run_fsck, check_filesystem, check_filesystem_with, check_filesystem_lenient,
}
use omnect_os_init.Filesystem.System.{System}
use omnect_os_init.Filesystem.Types.{FsType, ext4}

module _ (device : Text) (fstype : FsType) (code : FsckExitCode) (output : Text) where
  -- The strict check accepts exactly the codes 0 and 1, whatever the file system.
  pub evaluate_accepts :
      (evaluate device fstype code output
        ≡ ok (record { device = device; exit_code = code; output = output }))
      ↔ ((code.bits ≡ pos 0) ⊎ (code.bits ≡ pos 1))
  unfolding evaluate is_mount_safe is_reboot_required
  evaluate_accepts = (λ h. ground arith, λ h. ground arith)

  -- The lenient check turns a verdict into an error exactly where the reboot bit is set on ext4;
  -- any other exit code, uncorrected errors included, is a result that carries the code.
  pub tolerate_failure-evaluate : tolerate_failure (evaluate device fstype code output) ≡ (
      if uses_fsck_bitmask fstype && is_reboot_required code
      then err (fsck_requires_reboot device code output)
      else ok (record { device = device; exit_code = code; output = output }))
  unfolding evaluate tolerate_failure
  tolerate_failure-evaluate = ground arith

-- The error of a lenient check.
abbrev pub IsReboot : Text → FsType → FilesystemError → Type 0
IsReboot device fstype e =
    (code : FsckExitCode) × (output : Text) × (e ≡ fsck_requires_reboot device code output)
    × (is_reboot_required code ≡ true)
    × (fstype ≡ ext4)

evaluate-IsReboot :
    (device : Text) (fstype : FsType) (code : FsckExitCode) (output : Text) {e : FilesystemError}
    → tolerate_failure (evaluate device fstype code output) ≡ err e
    → IsReboot device fstype e
unfolding uses_fsck_bitmask
evaluate-IsReboot device ext4 code output h =
    let verdict = tolerate_failure-evaluate device ext4 code output in
    (code, output, ground (arith, verdict), ground (arith, verdict), refl)
evaluate-IsReboot device t code output h = cc (tolerate_failure-evaluate device t code output)

-- The error of a run that could not be started.
abbrev IsSpawnFailure : FilesystemError → Type 0
IsSpawnFailure e =
    (device : Text) × (code : FsckExitCode) × (output : Text) × (e ≡ fsck_failed device code output)

run_fsck-IsSpawnFailure :
    (S : System) (device : Text) (fstype : FsType) (force : Bool) (s : S.State)
    {e : FilesystemError}
    → (run_fsck S device fstype force s).0 ≡ err e
    → IsSpawnFailure e
unfolding run_fsck ◌>>=◌ map_error
run_fsck-IsSpawnFailure S device fstype force s h =
    elim (continue-eq-err _ (with_error _ (S.output (fsck_command device fstype force) s)) h) [
      | inl failed ↦
          let (x, e-eq) =
            with_error-eq-err _ (S.output (fsck_command device fstype force) s) failed in
          (device, code_unknown, _, e-eq)
      | inr (out, t, ran, h') ↦ cc
    ]

-- An error of the strict check: a run that could not be started, or a verdict on a run.
check_filesystem-err :
    (S : System) (device : Text) (fstype : FsType) (s : S.State) {e : FilesystemError}
    → (check_filesystem S device fstype s).0 ≡ err e
    → IsSpawnFailure e
      ⊎ ((code : FsckExitCode) × (output : Text) × (evaluate device fstype code output ≡ err e))
unfolding check_filesystem check_filesystem_with full_check ◌>>=◌
check_filesystem-err S device fstype s h =
    elim (continue-eq-err _ (run_fsck S device fstype false s) h) [
      | inl failed ↦ inl (run_fsck-IsSpawnFailure S device fstype false s failed)
      | inr (first, t, ran, h') ↦ elim (Bool-cases (needs_full_check fstype first.0 first.1)) [
        | inl again ↦ elim (continue-eq-err _ (run_fsck S device fstype true t) (rw again at h')) [
          | inl failed ↦ inl (run_fsck-IsSpawnFailure S device fstype true t failed)
          | inr (second, u, ran', h'') ↦ inr (second.0, first.1 ++ second.1, h'')
        ]
        | inr once ↦ inr (first.0, first.1, rw once at h')
      ]
    ]

tolerate_failure-eq-err :
    (r : Result FilesystemError FsckResult) {e : FilesystemError}
    → tolerate_failure r ≡ err e
    → r ≡ err e
unfolding tolerate_failure
tolerate_failure-eq-err r h = ground arith

-- The lenient check fails only to ask for a reboot, on an ext4 device whose last run set the
-- reboot bit; fsck that cannot be run, and every other exit code, does not stop the boot.
pub check_filesystem_lenient-IsReboot :
    (S : System) (device : Text) (fstype : FsType) (s : S.State) {e : FilesystemError}
    → (check_filesystem_lenient S device fstype s).0 ≡ err e
    → IsReboot device fstype e
unfolding check_filesystem_lenient
check_filesystem_lenient-IsReboot S device fstype s {e} h =
    let strict = tolerate_failure-eq-err (check_filesystem S device fstype s).0 h in
    elim (check_filesystem-err S device fstype s strict) [
      | inl (d, c, o, spawn) ↦ absurd (unfold tolerate_failure in cc)
      | inr (code, output, verdict) ↦
          evaluate-IsReboot device fstype code output
            (ap tolerate_failure (verdict ∙ sym strict) ∙ h)
    ]
