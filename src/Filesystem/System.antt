-- ===== src/Filesystem/System.antt =====
-- What src/filesystem asks of the kernel, the file system and external programs: an interface whose
-- operations act on a state of their own.
use omnect_os_init.Base.{ℕ, Bool, false, List, Option, Result}
use omnect_os_init.Base.Exec.{Exec}
use omnect_os_init.Base.Text.{Text}
use omnect_os_init.Bootloader.Uboot.{Output}
use omnect_os_init.Error.{IoError}

-- A program with its arguments and the variables set for it.
pub record Command : Type 0 where
  pub program : Text
  pub args : List Text
  pub envs : List (Text × Text)

-- `MsFlags`, the flags that the program uses.
pub record MsFlags : Type 0 where
  pub rdonly : Bool
  pub bind : Bool
  pub private_mount : Bool
  pub move_mount : Bool
  pub recursive : Bool
  pub noatime : Bool
  pub nodiratime : Bool
  pub nosuid : Bool
  pub nodev : Bool
  pub noexec : Bool

abbrev pub no_flags : MsFlags
no_flags = record {
  rdonly = false;
  bind = false;
  private_mount = false;
  move_mount = false;
  recursive = false;
  noatime = false;
  nodiratime = false;
  nosuid = false;
  nodev = false;
  noexec = false;
}

-- The arguments of mount(2).
pub record MountCall : Type 0 where
  pub source : Option Text
  pub target : Text
  pub fstype : Option Text
  pub flags : MsFlags
  pub options : Option Text

-- The errors of mount(2) and umount(2) are the texts of `errno`.
pub record System : Type 1 where
  pub State : Type 0
  pub nix_mount : MountCall → Exec Text State (Unit {0})
  pub nix_umount : Text → Exec Text State (Unit {0})
  pub output : Command → Exec IoError State Output
  pub read_to_string : Text → State → Result IoError Text
  pub create_dir_all : Text → Exec IoError State (Unit {0})
  -- opened for writing, created or truncated, with the mode
  pub create_file : Text → ℕ → Exec IoError State (Unit {0})
  pub set_permissions : Text → ℕ → Exec IoError State (Unit {0})
  pub write_all : Text → Text → Exec IoError State (Unit {0})
  pub sync_all : Text → Exec IoError State (Unit {0})
  -- `fs::write`: the whole file
  pub write : Text → Text → Exec IoError State (Unit {0})
  pub remove_file : Text → Exec IoError State (Unit {0})
  -- the owner and the group
  pub chown : Text → ℕ → ℕ → Exec Text State (Unit {0})
  pub exists : Text → State → Bool
  pub is_dir : Text → State → Bool
  pub is_symlink : Text → State → Bool
  -- the paths of the entries, or the error of reading one
  pub read_dir : Text → State → Result IoError (List (Result IoError Text))
  pub read_link : Text → State → Result IoError Text
  -- a regular file, and the mode
  pub metadata : Text → State → Result IoError (Bool × ℕ)
  -- the target, and the link
  pub symlink : Text → Text → Exec IoError State (Unit {0})
  pub chdir : Text → Exec Text State (Unit {0})
  pub chroot : Text → Exec Text State (Unit {0})
  -- `exec` with no environment: a success means that the process is another program
  pub exec : Text → Exec IoError State (Unit {0})
  -- there is an entry, a dangling link too
  pub lexists : Text → State → Bool
  -- the owner, the group and the mode
  pub owner_and_mode : Text → State → Result IoError (ℕ × ℕ × ℕ)
  pub create_dir : Text → Exec IoError State (Unit {0})
