-- ===== src/Runtime/SwitchRoot/Rollback.antt =====
-- What src/runtime/switch_root.rs leaves of the critical mounts when it fails.
use mathlib.Core.Path.{fun_ext}
use omnect_os_init.Base.{
  ◌≡◌, refl, ap, arith, ◌∙◌, Bool, true, false, ◌||◌, List, [], ◌∷◌, if◌then◌else◌, Result, ok, err,
  ◌⊎◌, inl, inr,
}
use omnect_os_init.Base.Equality.{Eq, eq_of_discrete, ◌=?◌}
use omnect_os_init.Base.Exec.{
  Ensures, Ensures-weaken, Ensures-state, continue-Ensures, ◌>>=◌, pure, map_error, with_error,
}
use omnect_os_init.Base.FilePath.{path_join}
use omnect_os_init.Base.Text.{Text, lit}
use omnect_os_init.Config.Cmdline.{Cmdline}
use omnect_os_init.Error.{InitramfsError}
use omnect_os_init.Filesystem.System.{System}
use omnect_os_init.Runtime.SwitchRoot.{
  Critical, critical_text, critical_mounts, move_to, move_back, move_call, move_critical,
  move_failed, rollback_critical_mounts, or_roll_back, move_all, create_mountpoints, enter_new_root,
  become_init, switch_root, require_root, resolve_init_path, init_path_from_cmdline,
}

Critical-discrete : Discrete Critical
Critical-discrete = hlevel

instance abbrev critical_equality : Eq Critical
critical_equality = eq_of_discrete Critical-discrete

abbrev is_ok : {E A : Type 0} → Result E A → Bool
is_ok (ok a) = true
is_ok (err e) = false

-- The mounts that are moved, with one more or one less.
abbrev pub mark : Critical → Bool → (Critical → Bool) → Critical → Bool
mark m v f j = if m =? j then v else f j

-- The mounts of a list.
abbrev listed : List Critical → Critical → Bool
listed [] j = false
listed (m ∷ ms) j = (m =? j) || listed ms j

-- What is documented of the system calls: a move that fails moves nothing, and the other calls move
-- no mount. A move back may fail like any other.
pub record MovesMounts (S : System) (new_root : Text) (free : S.State → S.State) : Type 0 where
  -- the mount is in the new root
  pub moved : S.State → Critical → Bool
  -- a move of the mount out of the new root was refused
  pub refused : S.State → Critical → Bool
  -- the new root was moved to /
  pub switched : S.State → Bool
  pub moved-forth :
      (m : Critical) (s : S.State)
      → moved (S.nix_mount (move_to new_root m) s).1
        ≡ (if is_ok (S.nix_mount (move_to new_root m) s).0 then mark m true (moved s) else moved s)
  pub moved-back :
      (m : Critical) (s : S.State)
      → moved (S.nix_mount (move_back new_root m) s).1 ≡ (
          if is_ok (S.nix_mount (move_back new_root m) s).0
          then mark m false (moved s)
          else moved s)
  pub refused-back :
      (m : Critical) (s : S.State)
      → refused (S.nix_mount (move_back new_root m) s).1 ≡ (
          if is_ok (S.nix_mount (move_back new_root m) s).0
          then refused s
          else mark m true (refused s))
  pub refused-forth :
      (m : Critical) (s : S.State) → refused (S.nix_mount (move_to new_root m) s).1 ≡ refused s
  pub refused-switch :
      (s : S.State) → refused (S.nix_mount (move_call (lit ".") (lit "/")) s).1 ≡ refused s
  pub refused-create : (path : Text) (s : S.State) → refused (S.create_dir_all path s).1 ≡ refused s
  pub refused-chdir : (path : Text) (s : S.State) → refused (S.chdir path s).1 ≡ refused s
  pub moved-create : (path : Text) (s : S.State) → moved (S.create_dir_all path s).1 ≡ moved s
  pub moved-chdir : (path : Text) (s : S.State) → moved (S.chdir path s).1 ≡ moved s
  pub moved-switch :
      (s : S.State) → moved (S.nix_mount (move_call (lit ".") (lit "/")) s).1 ≡ moved s
  pub switched-switch :
      (s : S.State)
      → is_ok (S.nix_mount (move_call (lit ".") (lit "/")) s).0 ≡ true
      → switched (S.nix_mount (move_call (lit ".") (lit "/")) s).1 ≡ true
  pub switched-chroot : (path : Text) (s : S.State) → switched (S.chroot path s).1 ≡ switched s
  pub switched-chdir : (path : Text) (s : S.State) → switched (S.chdir path s).1 ≡ switched s
  pub switched-free : (s : S.State) → switched (free s) ≡ switched s
  pub switched-exec : (path : Text) (s : S.State) → switched (S.exec path s).1 ≡ switched s

abbrev pub none_moved : Critical → Bool
none_moved j = false

mark-listed : (m : Critical) (ms : List Critical) → mark m true (listed ms) ≡ listed (m ∷ ms)
mark-listed m ms = fun_ext (λ j. same (m =? j) (listed ms j))
  where
    same : (a b : Bool) → (if a then true else b) ≡ (a || b)
    same true b = refl
    same false b = refl

module _ (S : System) (free : S.State → S.State) (new_root : Text)
    (K : MovesMounts S new_root free) where
  abbrev MovedAre : List Critical → S.State → Type 0
  MovedAre ms s = K.moved s ≡ listed ms

  -- A mount is in the new root only if its move out of it was refused.
  abbrev IsBack : S.State → Type 0
  IsBack s = (m : Critical) → K.moved s m ≡ true → K.refused s m ≡ true

  -- The new root is the root now, or what could be moved back is back.
  abbrev IsSafe : S.State → Type 0
  IsSafe s = (K.switched s ≡ true) ⊎ IsBack s

  -- A mount that is in the new root is to be moved back, or its move back was refused.
  abbrev AreLeft : List Critical → (Critical → Bool) → (Critical → Bool) → Type 0
  AreLeft ms moved refused = (j : Critical) → moved j ≡ true → (listed ms j || refused j) ≡ true

  AreLeft-move :
      (m : Critical) (ms : List Critical) (moved refused : Critical → Bool) (done : Bool)
      → AreLeft (m ∷ ms) moved refused
      → AreLeft ms
          (if done then mark m false moved else moved)
          (if done then refused else mark m true refused)
  AreLeft-move m ms moved refused true h j there = let left = h j in ground arith
  AreLeft-move m ms moved refused false h j there = let left = h j there in ground arith

  rollback-IsBack :
      (ms : List Critical) (s : S.State)
      → AreLeft ms (K.moved s) (K.refused s)
      → IsBack (rollback_critical_mounts S new_root ms s)
  unfolding rollback_critical_mounts
  rollback-IsBack [] s h = h
  rollback-IsBack (m ∷ ms) s h = rollback-IsBack ms (S.nix_mount (move_back new_root m) s).1 (
      rw (K.moved-back m s, K.refused-back m s)
        (AreLeft-move m ms (K.moved s) (K.refused s)
          (is_ok (S.nix_mount (move_back new_root m) s).0) h))

  rolled_back :
      (ms : List Critical) (s : S.State)
      → MovedAre ms s
      → IsSafe (rollback_critical_mounts S new_root ms s)
  rolled_back ms s h = inr (rollback-IsBack ms s (λ j there. let e = cong_at j h in ground arith))
    where
      cong_at : (j : Critical) → K.moved s ≡ listed ms → K.moved s j ≡ listed ms j
      cong_at j h = ap (λ (f : Critical → Bool). f j) h

  -- Where no mount was moved none is in the new root.
  none-IsBack : (s : S.State) → MovedAre [] s → IsBack s
  none-IsBack s h m there = let e : K.moved s m ≡ false = ap (λ (f : Critical → Bool). f m) h in cc

  or_roll_back-IsSafe :
      {A : Type 0} (Q : A → S.State → Type 0) (ms : List Critical)
      (p : Result InitramfsError A × S.State)
      → Ensures Q (MovedAre ms) p
      → Ensures Q IsSafe (or_roll_back S new_root ms p)
  unfolding or_roll_back
  or_roll_back-IsSafe Q ms (ok a, s) h = h
  or_roll_back-IsSafe Q ms (err e, s) h = rolled_back ms s h

  moved_or_not :
      (f : Text → InitramfsError) (m : Critical) (ms : List Critical) (s : S.State)
      (p : Result Text (Unit {0}) × S.State)
      → MovedAre ms s
      → K.moved p.1 ≡ (if is_ok p.0 then mark m true (K.moved s) else K.moved s)
      → Ensures (λ _. MovedAre (m ∷ ms)) (MovedAre ms) (with_error f p)
  moved_or_not f m ms s (ok a, s') h e = e ∙ rw h (mark-listed m ms)
  moved_or_not f m ms s (err x, s') h e = e ∙ h

  move_critical-MovedAre :
      (m : Critical) (ms : List Critical) (s : S.State)
      → MovedAre ms s
      → Ensures (λ _. MovedAre (m ∷ ms)) (MovedAre ms) (move_critical S new_root m s)
  unfolding move_critical move_failed map_error
  move_critical-MovedAre m ms s h =
      moved_or_not _ m ms s (S.nix_mount (move_to new_root m) s) h (K.moved-forth m s)

  move_all-IsSafe :
      (rest ms : List Critical) (s : S.State)
      → MovedAre ms s
      → Ensures MovedAre IsSafe (move_all S new_root rest ms s)
  unfolding move_all ◌>>=◌ pure
  move_all-IsSafe [] ms s h = h
  move_all-IsSafe (m ∷ rest) ms s h =
      continue-Ensures (λ _. MovedAre (m ∷ ms)) MovedAre IsSafe _ _
        (or_roll_back-IsSafe (λ _. MovedAre (m ∷ ms)) ms (move_critical S new_root m s)
          (move_critical-MovedAre m ms s h))
        (λ _ t k. move_all-IsSafe rest (m ∷ ms) t k)

  -- An operation that moves nothing keeps a list of moved mounts.
  kept :
      {E : Type 0} (P : S.State → Type 0) (f : E → InitramfsError)
      (p : Result E (Unit {0}) × S.State)
      → P p.1
      → Ensures (λ _. P) P (with_error f p)
  kept P f (ok a, s) h = h
  kept P f (err e, s) h = h

  switched_or_kept :
      (f : Text → InitramfsError) (ms : List Critical) (p : Result Text (Unit {0}) × S.State)
      → MovedAre ms p.1
      → (is_ok p.0 ≡ true → K.switched p.1 ≡ true)
      → Ensures (λ _ s. K.switched s ≡ true) (MovedAre ms) (with_error f p)
  switched_or_kept f ms (ok a, s) h e = e refl
  switched_or_kept f ms (err x, s) h e = h

  enter_new_root-IsSafe :
      (ms : List Critical) (s : S.State)
      → MovedAre ms s
      → Ensures (λ _ t. K.switched t ≡ true) IsSafe (enter_new_root S new_root ms s)
  unfolding enter_new_root ◌>>=◌ map_error
  enter_new_root-IsSafe ms s h =
      continue-Ensures (λ _. MovedAre ms) (λ _ t. K.switched t ≡ true) IsSafe _ _
        (or_roll_back-IsSafe (λ _. MovedAre ms) ms _
          (kept (MovedAre ms) _ (S.chdir new_root s) (K.moved-chdir new_root s ∙ h)))
        (λ _ t k.
          or_roll_back-IsSafe (λ _ u. K.switched u ≡ true) ms _
            (switched_or_kept _ ms (S.nix_mount (move_call (lit ".") (lit "/")) t)
              (K.moved-switch t ∙ k) (K.switched-switch t)))

  abbrev Switched : S.State → Type 0
  Switched s = K.switched s ≡ true

  become_init-Switched :
      (path : Text) (s : S.State)
      → Switched s
      → Ensures (λ _. Switched) Switched (become_init S free path s)
  unfolding become_init ◌>>=◌ map_error
  become_init-Switched path s h =
      continue-Ensures (λ _. Switched) (λ _. Switched) Switched _ _
        (kept Switched _ (S.chroot (lit ".") s) (K.switched-chroot (lit ".") s ∙ h))
        (λ _ t k.
          continue-Ensures (λ _. Switched) (λ _. Switched) Switched _ _
            (kept Switched _ (S.chdir (lit "/") t) (K.switched-chdir (lit "/") t ∙ k))
            (λ _ u l.
              kept Switched _ (S.exec path (free u))
                (K.switched-exec path (free u) ∙ K.switched-free u ∙ l)))

  create_mountpoints-MovedAre :
      (rest : List Critical) (s : S.State)
      → MovedAre [] s
      → Ensures (λ _. MovedAre []) IsSafe (create_mountpoints S new_root rest s)
  unfolding create_mountpoints ◌>>=◌ pure map_error
  create_mountpoints-MovedAre [] s h = h
  create_mountpoints-MovedAre (m ∷ rest) s h =
      let path = path_join new_root (critical_text m) in
      continue-Ensures (λ _. MovedAre []) (λ _. MovedAre []) IsSafe _ _
        (Ensures-weaken (λ _. MovedAre []) (λ _. MovedAre []) (MovedAre []) IsSafe _ (λ _ t k. k)
          (λ t k. inr (none-IsBack t k))
          (kept (MovedAre []) _ (S.create_dir_all path s) (K.moved-create path s ∙ h)))
        (λ _ t k. create_mountpoints-MovedAre rest t k)

  -- A check that reads only.
  read_only :
      {A : Type 0} (r : Result InitramfsError A) (s : S.State)
      → MovedAre [] s
      → Ensures {A = A} (λ _. MovedAre []) IsSafe (r, s)
  read_only (ok a) s h = h
  read_only (err e) s h = inr (none-IsBack s h)

  -- With system calls that behave as documented, and no critical mount moved before: however the
  -- switch ends, the new root is at /, or a critical mount that is still in the new root is one
  -- whose move back was refused, so that a failure before the switch leaves a shell its /dev,
  -- /proc, /sys and /run as far as they can be moved back.
  pub switch_root-IsSafe :
      (cmdline : Cmdline) (s : S.State)
      → K.moved s ≡ none_moved
      → (K.switched (switch_root S free new_root cmdline s).1 ≡ true)
        ⊎ ((m : Critical)
            → K.moved (switch_root S free new_root cmdline s).1 m ≡ true
            → K.refused (switch_root S free new_root cmdline s).1 m ≡ true)
  unfolding switch_root ◌>>=◌
  switch_root-IsSafe cmdline s h =
      let init = init_path_from_cmdline cmdline in
      Ensures-state IsSafe (switch_root S free new_root cmdline s) (
        continue-Ensures (λ _. MovedAre []) (λ _. IsSafe) IsSafe _ _
          (read_only (require_root S new_root s) s h)
          (λ _ t k.
            continue-Ensures (λ _. MovedAre []) (λ _. IsSafe) IsSafe _ _
              (read_only (resolve_init_path S new_root init t) t k)
              (λ path u l.
                continue-Ensures (λ _. MovedAre []) (λ _. IsSafe) IsSafe _ _
                  (create_mountpoints-MovedAre critical_mounts u l)
                  (λ _ v m.
                    continue-Ensures MovedAre (λ _. IsSafe) IsSafe _ _
                      (move_all-IsSafe critical_mounts [] v m)
                      (λ ms w n.
                        continue-Ensures (λ _. Switched) (λ _. IsSafe) IsSafe _ _
                          (enter_new_root-IsSafe ms w n)
                          (λ _ x o.
                            Ensures-weaken (λ _. Switched) (λ _. IsSafe) Switched IsSafe _
                              (λ _ y q. inl q) (λ y q. inl q) (become_init-Switched path x o)))))))
