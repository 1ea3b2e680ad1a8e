-- ===== src/Bootloader/Laws.antt =====
-- What the rest of the init relies on of the backends of src/bootloader. Bootloader/Uboot/Keeps,
-- Bootloader/Grub/Keeps and Bootloader/Grub/Saves derive it for the backends.
use omnect_os_init.Base.{◌≡◌, Bool, true, false, Option, none, some, if◌then◌else◌, Result, ok, err}
use omnect_os_init.Base.Equality.{◌=?◌}
use omnect_os_init.Base.Text.{Text}
use omnect_os_init.Bootloader.Env.{BootEnv, marker}
use omnect_os_init.Bootloader.Key.{BootEnvKey, key_equality}
use omnect_os_init.Bootloader.Record.{FsckRecord}
use omnect_os_init.Error.{BootEnvError}
use omnect_os_init.Filesystem.ExitCode.{FsckExitCode}
use omnect_os_init.Partition.Name.{PartitionName, name_equality}

-- What a backend whose tools work keeps, by key, as its reads give it. A value may read back in
-- another form than it was written, so only the marker is known to read back as it is, and a key
-- that is cleared as not set.
pub record KeepsValues (B : BootEnv) : Type 1 where
  pub value : B.State → BootEnvKey → Option Text
  -- the values whose write leaves the other keys alone
  pub Takes : Text → Type 0
  pub get-value : (key : BootEnvKey) (b : B.State) → B.get_env key b ≡ (ok (value b key), b)
  pub value-unset :
      (key j : BootEnvKey) (b : B.State)
      → value (B.set_env key none b).1 j ≡ (if key =? j then none else value b j)
  pub value-marked :
      (key : BootEnvKey) (b : B.State) → value (B.set_env key (some marker) b).1 key ≡ some marker
  pub value-other :
      (key j : BootEnvKey) (v : Text) (b : B.State)
      → Takes v
      → (key =? j) ≡ false
      → value (B.set_env key (some v) b).1 j ≡ value b j

-- A read that gives a record.
abbrev pub gives_record : Result BootEnvError (Option FsckRecord) → Bool
gives_record (ok (some r)) = true
gives_record (ok none) = false
gives_record (err e) = false

-- What a backend keeps as the records, by partition, as its reads give it. A read may consume the
-- record that it gives.
pub record KeepsRecords (B : BootEnv) : Type 1 where
  pub stored : B.State → PartitionName → Result BootEnvError (Option FsckRecord)
  -- the records that are stored as they are
  pub Takes : PartitionName → FsckExitCode → Text → Type 0
  pub get-stored : (p : PartitionName) (s : B.State) → (B.get_fsck_status p s).0 ≡ stored s p
  pub stored-save :
      (p q : PartitionName) (code : FsckExitCode) (output : Text) (s : B.State)
      → Takes p code output
      → stored (B.save_fsck_status p code output s).1 q
        ≡ (if p =? q then ok (some (record { exit_code = code; output = output })) else stored s q)
  pub stored-get :
      (p q : PartitionName) (s : B.State)
      → (p =? q) ≡ false
      → stored (B.get_fsck_status p s).1 q ≡ stored s q
  pub stored-read :
      (p : PartitionName) (s : B.State)
      → gives_record (stored s p) ≡ false
      → stored (B.get_fsck_status p s).1 p ≡ stored s p
  pub stored-clear :
      (p q : PartitionName) (s : B.State)
      → stored (B.clear_fsck_status p s).1 q ≡ (if p =? q then ok none else stored s q)
