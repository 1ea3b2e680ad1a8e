-- ===== src/Mode/FactoryReset/Backup.antt =====
-- src/mode/factory_reset/backup_restore.rs: the copies of what a factory reset keeps.
use omnect_os_init.Base.{
  Bool, true, false, not, ◌&&◌, List, [], ◌∷◌, ◌++◌, Option, none, some, ◌==◌, if◌then◌else◌,
  Result, ok, err, reverse,
}
use omnect_os_init.Base.Exec.{Exec, pure, raise, map_error, ◌>>◌, ◌>>=◌}
use omnect_os_init.Base.FilePath.{path_join, path_eq, parent, ancestors, strip_prefix}
use omnect_os_init.Base.Text.{Text, lit, trim_start, join}
use omnect_os_init.Bootloader.Uboot.{is_success}
use omnect_os_init.Error.{
  IoError, other, FactoryResetError, backup_failed, restore_failed, InitramfsError, factory_reset,
}
use omnect_os_init.Error.Display.{initramfs_text}
use omnect_os_init.Filesystem.System.{System}
use omnect_os_init.Runtime.OdsFiles.{Files}

pub data RestoreResult : Type 0 where
  success : RestoreResult
  partial_failure : (context error : Text) → RestoreResult

-- `CONTEXT_SEPARATOR`
unfoldable pub context_separator : Text
unfolding lit
context_separator = lit ";"

-- `path.trim_start_matches('/')`
unfoldable pub relative : Text → Text
unfolding trim_start
relative path = trim_start (λ c. c == b'/') path

abbrev or_self : Option Text → Text → Text
or_self none path = path
or_self (some rest) path = rest

backup_root : Text → Text → Text
unfolding path_join strip_prefix lit
backup_root rootfs backup_dir =
    path_join backup_dir (or_self (strip_prefix rootfs (lit "/")) rootfs)

unfoldable pub backup_source : Text → Text → Text → Text
unfolding backup_root path_join relative
backup_source rootfs path backup_dir = path_join (backup_root rootfs backup_dir) (relative path)

abbrev io_failed : Text → InitramfsError
io_failed message =
    factory_reset (FactoryResetError.io (record { kind = other; message = message }))

abbrev other_error : Text → IoError
other_error message = record { kind = other; message = message }

-- `take_while`
take_while : (Text → Bool) → List Text → List Text
take_while p [] = []
take_while p (x ∷ xs) = let rest = take_while p xs in if p x then x ∷ rest else []

-- What the loop of `restore_all` collects.
pub record Failures : Type 0 where
  pub context : List Text
  pub last_error : Option Text

-- The note of an entry, and the error that is the last one now.
abbrev with_failure : Text → Text → Failures → Failures
with_failure note error f = record { context = f.context ++ note ∷ []; last_error = some error }

restore_result : Failures → RestoreResult
unfolding join context_separator
restore_result f = elim f.last_error [
  | none ↦ success
  | some error ↦ partial_failure (join context_separator f.context) error
]

module _ (S : System) where
  run_sync : Files S (Unit {0})
  run_sync = do
    out ←
        map_error (λ (e : IoError). io_failed (lit "sync failed: " ++ e.message))
          (S.output (record { program = lit "/bin/sync"; args = []; envs = [] }))
    (if is_success out then pure tt else raise (io_failed (lit "sync exited with " ++ out.status)))

  -- A run of `cp`, whose failures get the path and the reason.
  copy : (Text → InitramfsError) → List Text → Files S (Unit {0})
  unfolding run_sync
  copy failed args = do
    out ←
        map_error (λ (e : IoError). failed (lit "Failed to run cp: " ++ e.message))
          (S.output (record { program = lit "/bin/cp"; args = args; envs = [] }))
    (if is_success out
        then pure tt
        else raise (failed (lit "cp failed (" ++ (out.status ++ (lit "): " ++ out.stderr)))))
    run_sync

  unfoldable pub backup_path : Text → Text → Text → Files S Bool
  unfolding copy relative
  backup_path rootfs path backup_dir s =
      let src = path_join rootfs (relative path) in
      if S.exists src s
      then (do
        copy (λ reason. factory_reset (backup_failed path reason))
            (lit "--parents" ∷ lit "-a" ∷ src ∷ backup_dir ∷ [])
        pure true)
          s
      else (ok false, s)

  backup_each : Text → List Text → Text → Files S (List Text)
  unfolding backup_path
  backup_each rootfs [] backup_dir = pure []
  backup_each rootfs (path ∷ rest) backup_dir = do
    saved ← backup_path rootfs path backup_dir
    more ← backup_each rootfs rest backup_dir
    pure (if saved then path ∷ more else more)

  unfoldable pub backup_all : Text → List Text → Text → Files S (List Text)
  unfolding backup_each
  backup_all rootfs preserve_list backup_dir = do
    map_error InitramfsError.io (S.create_dir_all backup_dir)
    backup_each rootfs preserve_list backup_dir

  abbrev Io : Type 0 → Type 0
  Io A = Exec IoError S.State A

  under_rootfs : Text → Text → Io Text
  under_rootfs rootfs dir = elim (strip_prefix dir rootfs) [
    | some rel ↦ pure rel
    | none ↦ raise (other_error (lit "prefix not found"))
  ]

  create_each : Text → Text → List Text → Io (Unit {0})
  unfolding under_rootfs
  create_each rootfs root [] = pure tt
  create_each rootfs root (dir ∷ rest) = do
    rel ← under_rootfs rootfs dir
    meta ← (λ s. (S.owner_and_mode (path_join root rel) s, s))
    S.create_dir dir
    map_error other_error (S.chown dir meta.0 meta.1)
    S.set_permissions dir meta.2
    create_each rootfs root rest

  unfoldable pub create_parent_dirs : Text → Text → Text → Io (Unit {0})
  unfolding create_each take_while ancestors path_eq
  create_parent_dirs rootfs dest_dir root s =
      let missing =
        take_while (λ dir. not (path_eq dir rootfs) && not (S.lexists dir s))
          (ancestors dest_dir) in
      (do
        create_each rootfs root (reverse missing)
        (λ t.
            if S.is_dir dest_dir t
            then (ok tt, t)
            else (err (other_error (lit "not a directory")), t)))
        s

  unfoldable pub restore_path : Text → Text → Text → Files S (Unit {0})
  unfolding backup_source backup_root relative create_parent_dirs copy parent
  restore_path rootfs path backup_dir s =
      let src = backup_source rootfs path backup_dir in
      let dest_full = path_join rootfs (relative path) in
      let dest_dir = or_self (parent dest_full) rootfs in
      if S.exists src s
      then (do
        map_error
            (λ (e : IoError). factory_reset (
              restore_failed path
                (lit "Cannot recreate " ++ (dest_dir ++ (lit " from the backup: " ++ e.message)))))
            (create_parent_dirs rootfs dest_dir (backup_root rootfs backup_dir))
        copy (λ reason. factory_reset (restore_failed path reason))
            (lit "-a" ∷ src ∷ dest_dir ∷ []))
          s
      else (ok tt, s)

  restored : Text → Result InitramfsError (Unit {0}) → Failures → Failures
  unfolding relative initramfs_text
  restored path (ok _) f = f
  restored path (err e) f = with_failure (relative path ++ lit ":restore") (initramfs_text e) f

  -- One entry: a missing backup and a failed restore are noted, and the others go on.
  restore_one : Text → Text → Text → Failures × S.State → Failures × S.State
  unfolding backup_source restored restore_path relative
  restore_one rootfs path backup_dir (f, s) =
      if S.exists (backup_source rootfs path backup_dir) s
      then (let (r, s') = restore_path rootfs path backup_dir s in (restored path r f, s'))
      else (
        with_failure (relative path ++ lit ":missing-backup") (lit "backup missing for " ++ path) f,
        s,
      )

  restore_each : Text → List Text → Text → Failures × S.State → Failures × S.State
  unfolding restore_one
  restore_each rootfs [] backup_dir t = t
  restore_each rootfs (path ∷ rest) backup_dir t =
      restore_each rootfs rest backup_dir (restore_one rootfs path backup_dir t)

  unfoldable pub restore_all : Text → List Text → Text → Files S RestoreResult
  unfolding restore_each restore_result
  restore_all rootfs backed_up backup_dir s =
      let (f, s') =
        restore_each rootfs backed_up backup_dir (record { context = []; last_error = none }, s) in
      (ok (restore_result f), s')
