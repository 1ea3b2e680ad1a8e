-- ===== src/Filesystem/Reformat.antt =====
-- src/filesystem/reformat.rs
use omnect_os_init.Base.{[], ◌∷◌, ◌++◌, if◌then◌else◌}
use omnect_os_init.Base.Exec.{pure, raise, map_error, ◌>>◌, ◌>>=◌}
use omnect_os_init.Base.Text.{Text, lit}
use omnect_os_init.Bootloader.Uboot.{Output, is_success}
use omnect_os_init.Error.{IoError, FilesystemError, format_failed}
use omnect_os_init.Filesystem.Mount.{Fs}
use omnect_os_init.Filesystem.System.{System}

unfoldable pub ext4_failed : Text → Text → FilesystemError
ext4_failed device reason = format_failed device (lit "ext4") reason

module _ (S : System) where
  require_success : Text → Text → Output → Fs S (Unit {0})
  unfolding ext4_failed
  require_success program device out =
      if is_success out
      then pure tt
      else raise (
          ext4_failed device
            (program ++ (lit " failed (" ++ (out.status ++ (lit "): " ++ out.stderr)))))

  run_program : Text → Text → Fs S Output → Fs S (Unit {0})
  unfolding require_success
  run_program program device run = do out ← run; require_success program device out

  unfoldable pub reformat_ext4 : Text → Text → Fs S (Unit {0})
  unfolding run_program ext4_failed
  reformat_ext4 device label = do
    run_program (lit "mkfs.ext4") device (
        map_error
          (λ (e : IoError). ext4_failed device (lit "Failed to run mkfs.ext4: " ++ e.message))
          (S.output (record {
            program = lit "/sbin/mkfs.ext4";
            args = lit "-F" ∷ lit "-q" ∷ device ∷ [];
            envs = [];
          })))
    run_program (lit "tune2fs") device (
        map_error (λ (e : IoError). ext4_failed device (lit "Failed to run tune2fs: " ++ e.message))
          (S.output (record {
            program = lit "/sbin/tune2fs";
            args = device ∷ lit "-c" ∷ lit "-1" ∷ lit "-i" ∷ lit "0" ∷ lit "-L" ∷ label ∷ [];
            envs = [];
          })))
