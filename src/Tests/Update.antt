-- ===== src/Tests/Update.antt =====
-- Runs of the update validation, of the switch to the system, and of the reports across a reboot.
use omnect_os_init.Base.{
  ◌≡◌, refl, sym, ok-injective, Bool, true, false, List, [], ◌∷◌, none, some, if◌then◌else◌, ok,
  err, ◌⊎◌,
}
use omnect_os_init.Base.FilePath.{path_join}
use omnect_os_init.Base.Text.{Text, lit, text_eq}
use omnect_os_init.Bootloader.Key.{bootloader_updated, key_equality}
use omnect_os_init.Filesystem.System.{System, MountCall}
use omnect_os_init.Init.RanBefore.{FailsCleanly}
use omnect_os_init.Runtime.SwitchRoot.{
  Critical, dev, proc, sys, run, critical_mounts, critical_text, move_to, move_back, move_call,
  switch_root,
}
use omnect_os_init.Runtime.SwitchRoot.Rollback.{MovesMounts, mark, none_moved, switch_root-IsSafe}
use omnect_os_init.Runtime.Validation.{Target}
use omnect_os_init.Tests.Mock.{Memory, empty_memory, with_value, memory_env, fixed_system}

abbrev memory_fails_cleanly : FailsCleanly memory_env
memory_fails_cleanly = record {
  value = λ m. m.0;
  value-get = λ key m. refl;
  get-value = λ key m v same. sym (ok-injective same);
  value-set = λ key v m. refl;
}

abbrev updated_memory : Memory
updated_memory = with_value bootloader_updated (lit "1") empty_memory

abbrev target : Target
target = record { ods_dir = lit "/run/ods"; rootfs = lit "/rootfs"; uid = 15581; gid = 15581 }

abbrev quiet_system : System
quiet_system =
    fixed_system (ok tt) (record { code = none; stdout = []; stderr = []; status = [] }) []

abbrev Mounts : Type 0
Mounts = (Critical → Bool) × Bool

abbrev new_root : Text
new_root = lit "/rootfs"

-- What a move of mount(2) moves; the last move is that of the new root.
abbrev moved_by : List Critical → MountCall → Mounts → Mounts
moved_by [] call (f, switched) = (f, true)
moved_by (m ∷ ms) call (f, switched) =
    if text_eq call.target (path_join new_root (critical_text m))
    then (mark m true f, switched)
    else elim call.source [
      | none ↦ (f, switched)
      | some source ↦
          if text_eq source (path_join new_root (critical_text m))
          then (mark m false f, switched)
          else moved_by ms call (f, switched)
    ]

abbrev base_system : System
base_system = quiet_system

abbrev moving_system : System
moving_system = record {
  State = Mounts;
  nix_mount = λ call s. (ok tt, moved_by critical_mounts call s);
  nix_umount = λ path s. (ok tt, s);
  output = λ command s. (ok (record { code = none; stdout = []; stderr = []; status = [] }), s);
  read_to_string = λ path s. ok [];
  create_dir_all = λ path s. (ok tt, s);
  create_file = λ path mode s. (ok tt, s);
  set_permissions = λ path mode s. (ok tt, s);
  write_all = λ path text s. (ok tt, s);
  sync_all = λ path s. (ok tt, s);
  write = λ path text s. (ok tt, s);
  remove_file = λ path s. (ok tt, s);
  chown = λ path uid gid s. (ok tt, s);
  exists = λ path s. true;
  is_dir = λ path s. true;
  is_symlink = λ path s. false;
  read_dir = λ path s. ok [];
  read_link = λ path s. ok [];
  metadata = λ path s. ok (true, 0o755);
  lexists = λ path s. true;
  owner_and_mode = λ path s. ok (0, 0, 0o755);
  create_dir = λ path s. (ok tt, s);
  symlink = λ target link s. (ok tt, s);
  chdir = λ path s. (err (lit "no such directory"), s);
  chroot = λ path s. (ok tt, s);
  exec = λ path s. (ok tt, s);
}

forth :
    (m : Critical) (s : Mounts)
    → moved_by critical_mounts (move_to new_root m) s ≡ (mark m true s.0, s.1)
unfolding text_eq critical_text lit path_join
forth dev s = refl
forth proc s = refl
forth sys s = refl
forth run s = refl

back :
    (m : Critical) (s : Mounts)
    → moved_by critical_mounts (move_back new_root m) s ≡ (mark m false s.0, s.1)
unfolding text_eq critical_text lit path_join
back dev s = refl
back proc s = refl
back sys s = refl
back run s = refl

switch : (s : Mounts) → moved_by critical_mounts (move_call (lit ".") (lit "/")) s ≡ (s.0, true)
unfolding text_eq critical_text lit path_join
switch s = refl

abbrev moves : MovesMounts moving_system new_root (λ s. s)
moves = record {
  moved = λ s. s.0;
  switched = λ s. s.1;
  moved-forth = λ m s. rw (forth m s) refl;
  moved-back = λ m s. rw (back m s) refl;
  refused = λ s m. false;
  refused-back = λ m s. refl;
  refused-forth = λ m s. refl;
  refused-switch = λ s. refl;
  refused-create = λ path s. refl;
  refused-chdir = λ path s. refl;
  moved-create = λ path s. refl;
  moved-chdir = λ path s. refl;
  moved-switch = λ s. rw (switch s) refl;
  switched-switch = λ s ok. rw (switch s) refl;
  switched-chroot = λ path s. refl;
  switched-chdir = λ path s. refl;
  switched-free = λ s. refl;
  switched-exec = λ path s. refl;
}

-- The new root cannot be entered, so the mounts come back.
switch_example :
    (moves.switched (switch_root moving_system (λ s. s) new_root [] (none_moved, false)).1 ≡ true)
    ⊎ ((m : Critical)
        → moves.moved (switch_root moving_system (λ s. s) new_root [] (none_moved, false)).1 m
          ≡ true
        → moves.refused (switch_root moving_system (λ s. s) new_root [] (none_moved, false)).1 m
          ≡ true)
switch_example =
    switch_root-IsSafe moving_system (λ s. s) new_root moves [] (none_moved, false) refl
