-- ===== src/InitSetup/ExtraBootargs/Sync.antt =====
-- What holds when the step of src/init_setup/extra_bootargs.rs reboots or reports no failure, for an
-- environment whose reads leave it as it is.
use omnect_os_init.Base.{
  ◌≡◌, refl, ap, ◌∙◌, Bool, true, false, Option, none, if◌then◌else◌, Result, ok, err, ◌⊎◌, inl,
  inr, arith, Bool-cases,
}
use omnect_os_init.Base.FilePath.{path_join}
use omnect_os_init.Base.Text.{Text, text_eq}
use omnect_os_init.Base.Text.Laws.{text_eq→eq, text_eq_refl}
use omnect_os_init.Bootloader.Env.{BootEnv, BootEnvState, available}
use omnect_os_init.Bootloader.Key.{BootEnvKey, extra_boot_args}
use omnect_os_init.Error.{IoError, BootEnvError, InitramfsError}
use omnect_os_init.Filesystem.Paths.{boot_mount}
use omnect_os_init.Filesystem.System.{System}
use omnect_os_init.InitSetup.ExtraBootargs.{
  or_empty, value_of, failed, read_extra_bootargs, Step, verified, written, with_current, with_args,
  gated, run_extra_bootargs,
}
use omnect_os_init.Runtime.Ods.{OdsStatus}

module _ (B : BootEnv) (keeps : (key : BootEnvKey) (b : B.State) → (B.get_env key b).1 ≡ b) where
  -- The environment is available and reads back the arguments, where no value stands for none.
  abbrev pub HoldsArgs : Text → BootEnvState B → Type 0
  HoldsArgs args env =
      (b : B.State) × (v : Option Text) × (env ≡ available b)
      × ((B.get_env extra_boot_args b).0 ≡ ok v)
      × (or_empty v ≡ args)

  -- The step wants a reboot, or it has reported nothing.
  abbrev pub NeedsNoRetry : Step B → Type 0
  NeedsNoRetry (r, (env, o)) = ((e : InitramfsError) × (r ≡ err e)) ⊎ (o.extra_bootargs ≡ none)

  verified-HoldsArgs :
      (args : Text) (r : Result BootEnvError (Option Text)) (b : B.State) (o : OdsStatus)
      → (B.get_env extra_boot_args b).0 ≡ r
      → NeedsNoRetry (verified B args r b o)
      → HoldsArgs args (verified B args r b o).1.0
  unfolding verified failed
  verified-HoldsArgs args (err e) b o h n = elim n [ inl (e', k) ↦ cc | inr k ↦ cc ]
  verified-HoldsArgs args (ok v) b o h n = elim (Bool-cases (text_eq (or_empty v) args)) [
    | inl same ↦ (b, v, ground arith, h, text_eq→eq _ _ same)
    | inr other ↦ elim n [ inl (e', k) ↦ ground arith | inr k ↦ ground arith ]
  ]

  written-HoldsArgs :
      (args : Text) (r : Result BootEnvError (Unit {0})) (b : B.State) (o : OdsStatus)
      → NeedsNoRetry (written B args r b o)
      → HoldsArgs args (written B args r b o).1.0
  unfolding written failed
  written-HoldsArgs args (err e) b o n = elim n [ inl (e', k) ↦ cc | inr k ↦ cc ]
  written-HoldsArgs args (ok _) b o n =
      let (r, b') = B.get_env extra_boot_args b in
      verified-HoldsArgs args r b' o
        (ap (λ x. (B.get_env extra_boot_args x).0) (keeps extra_boot_args b)) n

  with_current-HoldsArgs :
      (args : Text) (r : Result BootEnvError (Option Text)) (b : B.State) (o : OdsStatus)
      → (B.get_env extra_boot_args b).0 ≡ r
      → NeedsNoRetry (with_current B args r b o)
      → HoldsArgs args (with_current B args r b o).1.0
  unfolding with_current failed
  with_current-HoldsArgs args (err e) b o h = λ n. elim n [ inl (e', k) ↦ cc | inr k ↦ cc ]
  with_current-HoldsArgs args (ok v) b o h =
      step (text_eq (or_empty v) args) (λ same. (b, v, refl, h, text_eq→eq _ _ same))
    where
      rest : Step B
      rest = let (r, b') = B.set_env extra_boot_args (value_of args) b in written B args r b' o

      step :
          (c : Bool)
          → (c ≡ true → HoldsArgs args (available b))
          → NeedsNoRetry (if c then (ok tt, (available b, o)) else rest)
          → HoldsArgs args (if◌then◌else◌ {A = Step B} c (ok tt, (available b, o)) rest).1.0
      step true same n = same refl
      step false same n =
          let (r, b') = B.set_env extra_boot_args (value_of args) b in
          written-HoldsArgs args r b' o n

  with_args-HoldsArgs :
      (r : Result IoError Text) (b : B.State) (o : OdsStatus)
      → NeedsNoRetry (with_args B r (available b) o)
      → (args : Text) × (r ≡ ok args) × HoldsArgs args (with_args B r (available b) o).1.0
  unfolding with_args failed
  with_args-HoldsArgs (err e) b o n = elim n [ inl (e', k) ↦ cc | inr k ↦ cc ]
  with_args-HoldsArgs (ok args) b o n = (
    args,
    refl,
    let (r, b') = B.get_env extra_boot_args b in
        with_current-HoldsArgs args r b' o
          (ap (λ x. (B.get_env extra_boot_args x).0) (keeps extra_boot_args b)) n,
  )

  gated-HoldsArgs :
      (c : Bool) (r : Result IoError Text) (b : B.State) (o : OdsStatus)
      → c ≡ true
      → NeedsNoRetry (gated B c r (available b) o)
      → (args : Text) × (r ≡ ok args) × HoldsArgs args (gated B c r (available b) o).1.0
  unfolding gated
  gated-HoldsArgs false r b o h n = cc
  gated-HoldsArgs true r b o h n = with_args-HoldsArgs r b o n

  gated-err :
      (c : Bool) (r : Result IoError Text) (b : B.State) (o : OdsStatus) {e : InitramfsError}
      → (gated B c r (available b) o).0 ≡ err e
      → c ≡ true
  unfolding gated
  gated-err false r b o h = cc
  gated-err true r b o h = refl

  -- On a first boot with an environment, a step that asks for the reboot, or that reports no
  -- failure, has read the arguments from the files, and the environment reads back exactly them.
  pub run_extra_bootargs-HoldsArgs :
      (S : System) (rootfs : Text) (s : S.State) (b : B.State) (o : OdsStatus)
      → o.first_boot ≡ true
      → let step = run_extra_bootargs B S rootfs s (available b) o in
        NeedsNoRetry step
        → (args : Text) × (read_extra_bootargs S (path_join rootfs boot_mount) s ≡ ok args)
          × HoldsArgs args step.1.0
  unfolding run_extra_bootargs
  run_extra_bootargs-HoldsArgs S rootfs s b o first =
      gated-HoldsArgs o.first_boot (read_extra_bootargs S (path_join rootfs boot_mount) s) b o first

  with_args-again :
      (args : Text) (env : BootEnvState B) (o : OdsStatus)
      → HoldsArgs args env
      → with_args B (ok args) env o ≡ (ok tt, (env, o))
  unfolding with_args with_current
  with_args-again args env o (b, v, env-eq, read, same) =
      rw (env-eq, read, same, keeps extra_boot_args b, text_eq_refl args) refl

  gated-again :
      (c : Bool) (args : Text) (env : BootEnvState B) (o : OdsStatus)
      → HoldsArgs args env
      → gated B c (ok args) env o ≡ (ok tt, (env, o))
  unfolding gated
  gated-again false args env o h = refl
  gated-again true args env o h = with_args-again args env o h

  -- The step reboots the device once at most: after a step that asks for the reboot, the step of any
  -- later boot with the same files lets the boot go on and changes nothing.
  pub run_extra_bootargs-converges :
      (S : System) (rootfs : Text) (s : S.State) (b : B.State) (o o' : OdsStatus)
      (e : InitramfsError)
      → let step = run_extra_bootargs B S rootfs s (available b) o in
        step.0 ≡ err e → run_extra_bootargs B S rootfs s step.1.0 o' ≡ (ok tt, (step.1.0, o'))
  unfolding run_extra_bootargs
  run_extra_bootargs-converges S rootfs s b o o' e h =
      let first =
        gated-err o.first_boot (read_extra_bootargs S (path_join rootfs boot_mount) s) b o h in
      let (args, read, held) = run_extra_bootargs-HoldsArgs S rootfs s b o first (inl (e, h)) in
      ap (λ r. gated B o'.first_boot r (run_extra_bootargs B S rootfs s (available b) o).1.0 o')
        read
      ∙ gated-again o'.first_boot args _ o' held
