-- ===== src/Partition/Symlinks.antt =====
-- src/partition/symlinks.rs: the links of /dev/omnect.
use omnect_os_init.Base.{not, ◌&&◌, ◌||◌, [], ◌∷◌, ◌++◌, if◌then◌else◌, Result, ok, err}
use omnect_os_init.Base.Dict.{Dict}
use omnect_os_init.Base.Exec.{Exec, pure, map_error, ◌>>◌}
use omnect_os_init.Base.FilePath.{path_join, path_eq}
use omnect_os_init.Base.Text.{Text, lit}
use omnect_os_init.Error.{IoError, PartitionError, symlink_failed, symlink_remove_failed}
use omnect_os_init.Filesystem.System.{System}
use omnect_os_init.Partition.Layout.{PartitionLayout}
use omnect_os_init.Partition.Name.{PartitionName, name_text}

unfoldable pub omnect_dev_dir : Text
unfolding lit
omnect_dev_dir = lit "/dev/omnect"

unfoldable pub rootblk_symlink_name : Text
unfolding lit
rootblk_symlink_name = lit "rootblk"

unfoldable pub symlink_path : Text → Text
unfolding path_join omnect_dev_dir
symlink_path name = path_join omnect_dev_dir name

module _ (S : System) where
  abbrev pub Links : Type 0 → Type 0
  Links A = Exec PartitionError S.State A

  create_symlink_dir : Links (Unit {0})
  create_symlink_dir s =
      if S.exists omnect_dev_dir s
      then (ok tt, s)
      else map_error
          (λ (e : IoError).
            symlink_failed omnect_dev_dir [] (lit "Failed to create directory: " ++ e.message))
          (S.create_dir_all omnect_dev_dir) s

  remove_old : Text → Links (Unit {0})
  remove_old link s =
      if S.is_symlink link s || S.exists link s
      then (if not (S.is_symlink link s) && S.is_dir link s
          then (
            err (
                symlink_remove_failed link
                  (lit "path is a directory, cannot replace with symlink")),
            s,
          )
          else map_error (λ (e : IoError). symlink_remove_failed link e.message)
              (S.remove_file link) s)
      else (ok tt, s)

  unfoldable pub create_symlink : Text → Text → Links (Unit {0})
  unfolding remove_old
  create_symlink target link = do
    remove_old link
    map_error (λ (e : IoError). symlink_failed link target e.message) (S.symlink target link)

  create_names : Dict PartitionName Text → Links (Unit {0})
  unfolding create_symlink symlink_path
  create_names [] = pure tt
  create_names ((name, device) ∷ rest) = do
    create_symlink device (symlink_path (name_text name))
    create_names rest

  unfoldable pub create_omnect_symlinks : PartitionLayout → Links (Unit {0})
  unfolding create_symlink_dir create_symlink create_names
  create_omnect_symlinks layout = do
    create_symlink_dir
    create_symlink layout.device.base (symlink_path rootblk_symlink_name)
    create_names layout.partitions

  verified_target : Text → Text → Result IoError Text → Result PartitionError (Unit {0})
  unfolding path_eq
  verified_target link expected (err e) = err (PartitionError.io e)
  verified_target link expected (ok actual) =
      if path_eq actual expected
      then ok tt
      else err (
          symlink_failed link expected
            (lit "Symlink points to " ++ (actual ++ (lit " instead of " ++ expected))))

  unfoldable pub verify_symlink : Text → Text → S.State → Result PartitionError (Unit {0})
  unfolding verified_target
  verify_symlink link expected s =
      if S.is_symlink link s
      then verified_target link expected (S.read_link link s)
      else err (symlink_failed link expected (lit "Symlink does not exist"))

  verify_names : Dict PartitionName Text → S.State → Result PartitionError (Unit {0})
  unfolding verify_symlink symlink_path
  verify_names [] s = ok tt
  verify_names ((name, device) ∷ rest) s =
      elim (verify_symlink (symlink_path (name_text name)) device s) [
        | err e ↦ err e
        | ok _ ↦ verify_names rest s
      ]

  unfoldable pub verify_symlinks : PartitionLayout → S.State → Result PartitionError (Unit {0})
  unfolding verify_symlink verify_names
  verify_symlinks layout s =
      elim (verify_symlink (symlink_path rootblk_symlink_name) layout.device.base s) [
        | err e ↦ err e
        | ok _ ↦ verify_names layout.partitions s
      ]
