-- ===== src/Tests/Mock.antt =====
-- Concrete environments and systems for the runs.
use omnect_os_init.Base.{
  ◌≡◌, Bool, true, false, [], refl, Option, none, some, if◌then◌else◌, Result, ok,
}
use omnect_os_init.Base.Equality.{◌=?◌, =?_refl}
use omnect_os_init.Base.Text.{Text}
use omnect_os_init.Bootloader.Env.{BootEnv}
use omnect_os_init.Bootloader.Key.{BootEnvKey, key_equality}
use omnect_os_init.Bootloader.Record.{FsckRecord}
use omnect_os_init.Bootloader.Uboot.{Output}
use omnect_os_init.Error.{BootEnvError}
use omnect_os_init.Filesystem.System.{System}
use omnect_os_init.Bootloader.Laws.{KeepsValues, KeepsRecords}
use omnect_os_init.Partition.Name.{PartitionName, name_equality}

-- An environment in memory: its values and its records.
abbrev pub Memory : Type 0
Memory = (BootEnvKey → Option Text) × (PartitionName → Option FsckRecord)

abbrev pub empty_memory : Memory
empty_memory = (λ key. none, λ p. none)

abbrev pub with_value : BootEnvKey → Text → Memory → Memory
with_value key v (values, records) = (λ j. if key =? j then some v else values j, records)

abbrev pub memory_env : BootEnv
memory_env = record {
  State = Memory;
  get_env = λ key m. (ok (m.0 key), m);
  set_env = λ key v m. (ok tt, (λ j. if key =? j then v else m.0 j, m.1));
  save_fsck_status = λ p code output m. (
    ok tt,
    (m.0, λ q. if p =? q then some (record { exit_code = code; output = output }) else m.1 q),
  );
  get_fsck_status = λ p m. (ok (m.1 p), m);
  clear_fsck_status = λ p m. (ok tt, (m.0, λ q. if p =? q then none else m.1 q));
}

abbrev pub Stored : Type 0
Stored = Result BootEnvError (Option FsckRecord)

-- A store with one partition's record replaced.
pub stored_if :
    (hit : Bool) (r old : Option FsckRecord)
    → ◌≡◌ {A = Stored} (ok (if hit then r else old)) (if hit then ok r else ok old)
stored_if true r old = refl
stored_if false r old = refl

abbrev pub memory_keeps_records : KeepsRecords memory_env
memory_keeps_records = record {
  stored = λ m p. ok (m.1 p);
  Takes = λ p code output. Unit;
  get-stored = λ p m. refl;
  stored-save = λ p q code output m takes. stored_if (p =? q) _ (m.1 q);
  stored-get = λ p q m apart. refl;
  stored-read = λ p m read. refl;
  stored-clear = λ p q m. stored_if (p =? q) none (m.1 q);
}

abbrev pub memory_keeps_values : KeepsValues memory_env
memory_keeps_values = record {
  value = λ m. m.0;
  Takes = λ v. Unit;
  get-value = λ key m. refl;
  value-unset = λ key j m. refl;
  value-marked = λ key m. rw (=?_refl key) refl;
  value-other = λ key j v m takes apart. rw apart refl;
}

-- A system that mounts as given, runs every program with one output and reads every file as one
-- text.
abbrev pub fixed_system : Result Text (Unit {0}) → Output → Text → System
fixed_system mounts out text = record {
  State = Unit {0};
  nix_mount = λ call s. (mounts, s);
  nix_umount = λ path s. (ok tt, s);
  output = λ command s. (ok out, s);
  read_to_string = λ path s. ok text;
  create_dir_all = λ path s. (ok tt, s);
  create_file = λ path mode s. (ok tt, s);
  set_permissions = λ path mode s. (ok tt, s);
  write_all = λ path text s. (ok tt, s);
  sync_all = λ path s. (ok tt, s);
  write = λ path text s. (ok tt, s);
  remove_file = λ path s. (ok tt, s);
  chown = λ path uid gid s. (ok tt, s);
  exists = λ path s. true;
  is_dir = λ path s. false;
  is_symlink = λ path s. false;
  read_dir = λ path s. ok [];
  read_link = λ path s. ok [];
  metadata = λ path s. ok (true, 0o755);
  lexists = λ path s. true;
  owner_and_mode = λ path s. ok (0, 0, 0o755);
  create_dir = λ path s. (ok tt, s);
  symlink = λ target link s. (ok tt, s);
  chdir = λ path s. (ok tt, s);
  chroot = λ path s. (ok tt, s);
  exec = λ path s. (ok tt, s);
}
