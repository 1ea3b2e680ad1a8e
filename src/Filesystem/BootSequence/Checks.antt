-- ===== src/Filesystem/BootSequence/Checks.antt =====
-- How the mounts of a boot fail, and what is recorded when they do.
use omnect_os_init.Base.{
  ◌≡◌, refl, true, false, some, arith, if◌then◌else◌, Result, ok, err, err-injective,
}
use omnect_os_init.Base.Dict.{lookup, lookup-insert}
use omnect_os_init.Base.Equality.{◌=?◌, =?_refl}
use omnect_os_init.Base.Text.{Text}
use omnect_os_init.Error.{FilesystemError, fsck_requires_reboot}
use omnect_os_init.Filesystem.BootSequence.{fsck_and_record, record_result}
use omnect_os_init.Filesystem.ExitCode.{FsckExitCode, is_clean, is_reboot_required}
use omnect_os_init.Filesystem.Fsck.{FsckResult, check_filesystem_lenient}
use omnect_os_init.Filesystem.Fsck.Verdicts.{IsReboot, check_filesystem_lenient-IsReboot}
use omnect_os_init.Filesystem.System.{System}
use omnect_os_init.Filesystem.Types.{FsType, ext4}
use omnect_os_init.Partition.Name.{PartitionName, name_equality}
use omnect_os_init.Runtime.Ods.{OdsStatus, FsckStatus, record_fsck_result}

pub reboot-not_clean :
    (code : FsckExitCode) → is_reboot_required code ≡ true → is_clean code ≡ false
unfolding is_reboot_required is_clean
reboot-not_clean code h = ground arith

abbrev pub status_of : FsckExitCode → Text → FsckStatus
status_of code output = record { code = code.bits; output = output }

-- A record replaces that of its partition alone, and a clean result leaves no record.
pub lookup-record_fsck_result :
    (p q : PartitionName) (code : FsckExitCode) (output : Text) (o : OdsStatus)
    → lookup q (record_fsck_result p code output o).fsck ≡ (
        if is_clean code
        then lookup q o.fsck
        else if p =? q
        then some (status_of code output)
        else lookup q o.fsck)
unfolding record_fsck_result
lookup-record_fsck_result p q code output o =
    ground (arith, lookup-insert p q (status_of code output) o.fsck)

-- The error asks for a reboot, and its record is among those of this boot.
abbrev pub IsRecorded : PartitionName → FilesystemError → OdsStatus → Type 0
IsRecorded name e o =
    (device : Text) × (code : FsckExitCode) × (output : Text) × (e
      ≡ fsck_requires_reboot device code output)
    × (lookup name o.fsck ≡ some (status_of code output))
    × (is_reboot_required code ≡ true)

record_result-reboot :
    (name : PartitionName) (device : Text) (code : FsckExitCode) (output : Text) (o : OdsStatus)
    → is_reboot_required code ≡ true
    → let e = fsck_requires_reboot device code output in
      IsRecorded name e (record_result name (err e) o).1
unfolding record_result
record_result-reboot name device code output o bit = (
  device,
  code,
  output,
  refl,
  ground (
    arith,
    lookup-record_fsck_result name name code output o,
    reboot-not_clean code,
    =?_refl name,
  ),
  bit,
)

record_result-IsRecorded :
    (name : PartitionName) (dev : Text) (fstype : FsType) (r : Result FilesystemError FsckResult)
    (o : OdsStatus) {e : FilesystemError}
    → ((e' : FilesystemError) → r ≡ err e' → IsReboot dev fstype e')
    → (record_result name r o).0 ≡ err e
    → IsRecorded name e (record_result name r o).1 × (fstype ≡ ext4)
unfolding record_result
record_result-IsRecorded name dev fstype (ok r) o reboot h = cc
record_result-IsRecorded name dev fstype (err e') o reboot h =
    let (code, output, e'-eq, bit, is_ext4) = reboot e' refl in
    let h' : (record_result name (err (fsck_requires_reboot dev code output)) o).0 ≡ err _ =
      rw e'-eq at h in
    rw e'-eq ((rw (err-injective h') at (record_result-reboot name dev code output o bit)), is_ext4)

module _ (S : System) where
  -- When the check of a partition stops the boot, the partition is ext4, fsck asked for a reboot,
  -- and its exit code and output are recorded in the status.
  pub fsck_and_record-IsRecorded :
      (dev : Text) (name : PartitionName) (fstype : FsType) (o : OdsStatus) (s : S.State)
      {e : FilesystemError}
      → (fsck_and_record S dev name fstype (o, s)).0 ≡ err e
      → IsRecorded name e (fsck_and_record S dev name fstype (o, s)).1.0 × (fstype ≡ ext4)
  unfolding fsck_and_record
  fsck_and_record-IsRecorded dev name fstype o s h =
      record_result-IsRecorded name dev fstype (check_filesystem_lenient S dev fstype s).0 o
        (λ e' failed. check_filesystem_lenient-IsReboot S dev fstype s failed) h
