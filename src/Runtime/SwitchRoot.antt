-- ===== src/Runtime/SwitchRoot.antt =====
-- src/runtime/switch_root.rs: the way into the root file system. Deleting the files of the initramfs
-- is a parameter. A run that succeeds has become the init of the system.
pub mod Rollback
use omnect_os_init.Base.{
  ℕ, ◌/◌, ◌%◌, Bool, true, false, ◌&&◌, ◌||◌, List, [], ◌∷◌, ◌++◌, Option, none, some, ◌==◌,
  if◌then◌else◌, any, Result, ok, err,
}
use omnect_os_init.Base.Exec.{Exec, pure, lift, map_error, with_error, ◌>>◌, ◌>>=◌}
use omnect_os_init.Base.FilePath.{path_join}
use omnect_os_init.Base.Text.{Text, lit, text_eq, is_empty, trim_start, split, starts_with}
use omnect_os_init.Config.Cmdline.{Cmdline, get_param}
use omnect_os_init.Error.{IoError, not_found, other, InitramfsError}
use omnect_os_init.Filesystem.System.{System, MountCall, no_flags}
use omnect_os_init.Runtime.OdsFiles.{Files, io_other}

unfoldable pub default_init : Text
unfolding lit
default_init = lit "/sbin/init"

or_default_init : Option Text → Text
or_default_init none = default_init
or_default_init (some path) = if is_empty path then default_init else path

unfoldable pub init_path_from_cmdline : Cmdline → Text
unfolding or_default_init get_param lit
init_path_from_cmdline cmdline = or_default_init (get_param (lit "init") cmdline)

-- The critical mounts, by the name of their directory.
pub data Critical : Type 0 where
  dev proc sys run : Critical

unfoldable pub critical_text : Critical → Text
unfolding lit
critical_text dev = lit "dev"
critical_text proc = lit "proc"
critical_text sys = lit "sys"
critical_text run = lit "run"

abbrev pub critical_mounts : List Critical
critical_mounts = dev ∷ proc ∷ sys ∷ run ∷ []

-- mount(2) with `MS_MOVE`
abbrev pub move_call : Text → Text → MountCall
move_call source target = record {
  source = some source;
  target = target;
  fstype = none;
  flags = record no_flags { move_mount = true };
  options = none;
}

-- The move of a critical mount to the new root, and the way back.
abbrev pub move_to : Text → Critical → MountCall
move_to new_root m = move_call (lit "/" ++ critical_text m) (path_join new_root (critical_text m))

abbrev pub move_back : Text → Critical → MountCall
move_back new_root m = move_call (path_join new_root (critical_text m)) (lit "/" ++ critical_text m)

-- `mode & 0o111 != 0`
abbrev pub has_executable_bit : ℕ → Bool
has_executable_bit mode = mode % 2 == 1 || mode / 8 % 2 == 1 || mode / 64 % 2 == 1

has_parent_part : Text → Bool
unfolding text_eq lit split
has_parent_part path = any (λ part. text_eq part (lit "..")) (split (λ c. c == b'/') path)

found_init : Text → Text → Result IoError (Bool × ℕ) → Result InitramfsError Text
found_init new_root init_path (err e) = err (InitramfsError.io e)
found_init new_root init_path (ok (is_file, mode)) =
    if is_file && has_executable_bit mode
    then ok init_path
    else err (
        InitramfsError.io (record {
          kind = not_found;
          message =
              lit "Init binary not found or not executable at "
              ++ (new_root ++ (lit ": " ++ init_path));
        }))

module _ (S : System) where
  unfoldable pub resolve_init_path : Text → Text → S.State → Result InitramfsError Text
  unfolding has_parent_part found_init starts_with trim_start lit
  resolve_init_path new_root requested s =
      if has_parent_part requested
      then err (io_other (lit "init path must not contain '..': " ++ requested))
      else let init_path : Text =
          if starts_with (lit "/") requested then requested else lit "/" ++ requested in
        found_init new_root init_path
          (S.metadata (path_join new_root (trim_start (λ c. c == b'/') init_path)) s)

  move_failed : MountCall → Text → Text → Files S (Unit {0})
  move_failed call source target =
      map_error
        (λ e.
          io_other
            (lit "Failed to move " ++ (source ++ (lit " → " ++ (target ++ (lit ": " ++ e))))))
        (S.nix_mount call)

  -- `move_mount` to the new root
  unfoldable pub move_critical : Text → Critical → Files S (Unit {0})
  unfolding move_failed
  move_critical new_root m =
      move_failed (move_to new_root m) (lit "/" ++ critical_text m)
        (path_join new_root (critical_text m))

  -- The mounts that were moved are given with the newest first; failures are logged only.
  unfoldable pub rollback_critical_mounts : Text → List Critical → S.State → S.State
  rollback_critical_mounts new_root [] s = s
  rollback_critical_mounts new_root (m ∷ moved) s =
      rollback_critical_mounts new_root moved (S.nix_mount (move_back new_root m) s).1

  -- An operation whose failure moves the mounts back.
  or_roll_back :
      {A : Type 0}
      → Text
      → List Critical
      → Result InitramfsError A × S.State
      → Result InitramfsError A × S.State
  unfolding rollback_critical_mounts
  or_roll_back new_root moved (ok a, s) = (ok a, s)
  or_roll_back new_root moved (err e, s) = (err e, rollback_critical_mounts new_root moved s)

  -- The mounts that were moved, the newest first.
  unfoldable pub move_all : Text → List Critical → List Critical → Files S (List Critical)
  unfolding move_critical or_roll_back ◌>>=◌
  move_all new_root [] moved = pure moved
  move_all new_root (m ∷ rest) moved = do
    (λ s. or_roll_back new_root moved (move_critical new_root m s))
    move_all new_root rest (m ∷ moved)

  create_mountpoints : Text → List Critical → Files S (Unit {0})
  create_mountpoints new_root [] = pure tt
  create_mountpoints new_root (m ∷ rest) = do
    map_error
        (λ (e : IoError). io_other (
          lit "Failed to create mountpoint "
          ++ (new_root ++ (lit "/" ++ (critical_text m ++ (lit ": " ++ e.message))))))
        (S.create_dir_all (path_join new_root (critical_text m)))
    create_mountpoints new_root rest

  abbrev labelled : {A : Type 0} → Text → Exec Text S.State A → Files S A
  labelled what m = map_error (λ e. io_other (what ++ e)) m

  require_root : Text → S.State → Result InitramfsError (Unit {0})
  require_root new_root s =
      if S.exists new_root s
      then ok tt
      else err (
          InitramfsError.io
            (record { kind = not_found; message = lit "New root does not exist: " ++ new_root }))

  -- The steps up to the move of the new root, each with the way back.
  unfoldable pub enter_new_root : Text → List Critical → Files S (Unit {0})
  unfolding or_roll_back
  enter_new_root new_root moved = do
    (λ s.
        or_roll_back new_root moved
          (labelled (lit "Failed to chdir to new root: ") (S.chdir new_root) s))
    (λ s. or_roll_back new_root moved (
        labelled (lit "Failed to MS_MOVE new root to /: ")
          (S.nix_mount (move_call (lit ".") (lit "/"))) s))

  -- The steps in the new root; there is no way back.
  unfoldable pub become_init : (S.State → S.State) → Text → Files S (Unit {0})
  become_init free_initramfs init_path = do
    labelled (lit "Failed to chroot: ") (S.chroot (lit "."))
    labelled (lit "Failed to chdir to /: ") (S.chdir (lit "/"))
    (λ s. (ok tt, free_initramfs s))
    map_error (λ (e : IoError). io_other (lit "Failed to exec init: " ++ e.message))
        (S.exec init_path)

  unfoldable pub switch_root : (S.State → S.State) → Text → Cmdline → Files S (Unit {0})
  unfolding init_path_from_cmdline require_root resolve_init_path create_mountpoints move_all
      enter_new_root become_init
  switch_root free_initramfs new_root cmdline = do
    (λ s. (require_root new_root s, s))
    init_path ← (λ s. (resolve_init_path new_root (init_path_from_cmdline cmdline) s, s))
    create_mountpoints new_root critical_mounts
    moved ← move_all new_root critical_mounts []
    enter_new_root new_root moved
    become_init free_initramfs init_path
