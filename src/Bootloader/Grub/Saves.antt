-- ===== src/Bootloader/Grub/Saves.antt =====
-- The saves of the fsck records of src/bootloader/grub.rs, and what the backend keeps of them.
use omnect_os_init.Base.{
  ◌≡◌, refl, ◌∙◌, ap, ℕ, true, not, List, ◌∷◌, ◌++◌, Option, some, if◌then◌else◌, Result, ok, arith,
  ◌&&◌, ◌==◌,
}
use omnect_os_init.Base.Equality.{◌=?◌}
use omnect_os_init.Base.Text.{Text, is_whitespace, trim}
use omnect_os_init.Base.Text.Digits.{IsI32}
use omnect_os_init.Base.Text.Numbers.{ℤ, decimal_ℤ}
use omnect_os_init.Bootloader.Grub.{
  GrubTools, FsckChannel, env, file, channel_for, fsck_file_path, run_result, run_grub_editenv,
  grub_set_env, save_fsck_to_file, write_boot_fsck_record, grub_save_fsck, grub_get_fsck,
  grub_clear_fsck, grub_boot_env,
}
use omnect_os_init.Bootloader.Grub.Paths.{text_eq-fsck_file_path}
use omnect_os_init.Bootloader.Grub.Keeps.{GrubKeeps, one_line, value_at, grub_set_env-set}
use omnect_os_init.Bootloader.Key.{fsck_status}
use omnect_os_init.Bootloader.Key.Distinct.{fsck_status-key}
use omnect_os_init.Bootloader.Laws.{KeepsRecords}
use omnect_os_init.Base.Text.Occurrence.{all-implies}
use omnect_os_init.Bootloader.Packed.{IsPlain, record_of_stored-encode_fsck_output}
use omnect_os_init.Bootloader.Record.{FsckRecord, Applets, encode_fsck_output}
use omnect_os_init.Bootloader.Record.RoundTrip.{
  IsWorking, decode_fsck_output-encode_fsck_output, encode_fsck_output-encoded,
}
use omnect_os_init.Error.{BootEnvError}
use omnect_os_init.Filesystem.ExitCode.{FsckExitCode}
use omnect_os_init.Partition.Name.{PartitionName, name_equality}
use omnect_os_init.Bootloader.Grub.Records.{
  FilesKeep, channel-apart, of_content, content-set_env, stored_on-clear_on, get_on-stored_on,
  stored_on-get_on, stored_on-read, stored_on, clear_on, get_on,
}

module _ (t : GrubTools) (a : Applets) (K : GrubKeeps t) (F : FilesKeep t K) where
  -- The packed text of a record is one line.
  packed-one_line :
      (w : IsWorking a)
      → IsPlain a w
      → (code : ℤ) (output : Text) → one_line (encode_fsck_output a code output) ≡ true
  unfolding is_whitespace
  packed-one_line w plain code output =
      let b : List ℕ = a.bytes (decimal_ℤ code ++ b'\n' ∷ output) in
      rw (encode_fsck_output-encoded a code output w) (
        all-implies (λ c. not (is_whitespace c)) (λ c. not (c == b'\n') && not (c == b'\r'))
          (trim (a.lossy (w.encoded (w.compressed b)))) (λ c h. ground arith) (plain.no-space b))

  set_env-succeeds :
      (p : PartitionName) (v : Text) (s : t.State)
      → one_line v ≡ true
      → K.Fits v
      → (grub_set_env t (fsck_status p) (some v) s).0 ≡ ok tt
  unfolding grub_set_env run_grub_editenv run_result
  set_env-succeeds p v s plain fits = rw (F.set-succeeds (fsck_status p) v s plain fits) refl

  -- A record that there is room for is written as it is.
  write_boot_fsck_record-state :
      (p : PartitionName) (code : FsckExitCode) (v : Text) (s : t.State)
      → one_line v ≡ true
      → K.Fits v
      → (write_boot_fsck_record t a code v
          (λ payload. grub_set_env t (fsck_status p) (some payload))
          s).1
        ≡ (grub_set_env t (fsck_status p) (some v) s).1
  unfolding write_boot_fsck_record
  write_boot_fsck_record-state p code v s plain fits =
      rw (set_env-succeeds p v s plain fits, write_boot_fsck_record) refl

  save_on : FsckChannel → PartitionName → FsckExitCode → Text → t.State → t.State
  save_on env p code output s =
      (write_boot_fsck_record t a code (encode_fsck_output a code.bits output)
        (λ payload. grub_set_env t (fsck_status p) (some payload)) s).1
  save_on file p code output s = (save_fsck_to_file t p (encode_fsck_output a code.bits output) s).1

  -- A record is taken where its exit code fits an `i32` and, in the environment, where there is room.
  TakesOn : FsckChannel → FsckExitCode → Text → Type 0
  TakesOn env code output = IsI32 code.bits × K.Fits (encode_fsck_output a code.bits output)
  TakesOn file code output = IsI32 code.bits

  grub_save_fsck-save_on :
      (c : FsckChannel) (p : PartitionName) (code : FsckExitCode) (output : Text) (s : t.State)
      → channel_for p ≡ c
      → (grub_save_fsck t a p code output s).1 ≡ save_on c p code output s
  unfolding grub_save_fsck save_on
  grub_save_fsck-save_on env p code output s h = rw (h, grub_save_fsck) refl
  grub_save_fsck-save_on file p code output s h = rw (h, grub_save_fsck) refl

  grub_get_fsck-get_on :
      (c : FsckChannel) (p : PartitionName) (s : t.State)
      → channel_for p ≡ c
      → grub_get_fsck t a p s ≡ get_on t a K F c p s
  unfolding grub_get_fsck get_on
  grub_get_fsck-get_on env p s h = rw (h, grub_get_fsck) refl
  grub_get_fsck-get_on file p s h = rw (h, grub_get_fsck) refl

  grub_clear_fsck-clear_on :
      (c : FsckChannel) (p : PartitionName) (s : t.State)
      → channel_for p ≡ c
      → (grub_clear_fsck t a p s).1 ≡ clear_on t a K F c p s
  unfolding grub_clear_fsck clear_on
  grub_clear_fsck-clear_on env p s h = rw (h, grub_clear_fsck) refl
  grub_clear_fsck-clear_on file p s h = rw (h, grub_clear_fsck) refl

  abbrev Read : Type 0
  Read = Result BootEnvError (Option FsckRecord) × t.State

  module _ (w : IsWorking a) (plain : IsPlain a w) where
    stored_on-save_on :
        (c d : FsckChannel) (p q : PartitionName) (code : FsckExitCode) (output : Text)
        (s : t.State)
        → channel_for p ≡ c
        → channel_for q ≡ d
        → TakesOn c code output
        → stored_on t a K F d (save_on c p code output s) q ≡ (
            if p =? q
            then ok (some (record { exit_code = code; output = output }))
            else stored_on t a K F d s q)
    unfolding stored_on save_on of_content TakesOn
    stored_on-save_on env env p q code output s hp hq (fits, room) =
        let line = packed-one_line w plain code.bits output in
        rw
          (
            write_boot_fsck_record-state p code (encode_fsck_output a code.bits output) s line room,
            grub_set_env-set t a K (fsck_status p) (fsck_status q)
                (encode_fsck_output a code.bits output) s line room,
            fsck_status-key p q,
          )
          (ground (arith, record_of_stored-encode_fsck_output a q code.bits output w fits))
    stored_on-save_on env file p q code output s hp hq (fits, room) =
        rw
          (
            write_boot_fsck_record-state p code (encode_fsck_output a code.bits output) s
                (packed-one_line w plain code.bits output) room,
            content-set_env t a K F p (some (encode_fsck_output a code.bits output))
                (fsck_file_path q) s,
            channel-apart p q env file hp hq (λ h. cc),
          )
          refl
    stored_on-save_on file env p q code output s hp hq fits =
        unfold save_fsck_to_file value_at in
        rw
          (
            F.entries-write p (encode_fsck_output a code.bits output) s,
            channel-apart p q file env hp hq (λ h. cc),
          )
          refl
    stored_on-save_on file file p q code output s hp hq fits =
        unfold save_fsck_to_file in
        rw
          (
            F.content-write p (encode_fsck_output a code.bits output) (fsck_file_path q) s,
            text_eq-fsck_file_path p q,
          )
          (ground (arith, decode_fsck_output-encode_fsck_output a code.bits output w fits))

    -- The backend keeps records, and takes those whose exit code fits an `i32` and, for the boot
    -- partition, that the environment has room for.
    pub grub_boot_env-KeepsRecords : KeepsRecords (grub_boot_env t a)
    unfolding grub_boot_env
    grub_boot_env-KeepsRecords = record {
      stored = λ s p. stored_on t a K F (channel_for p) s p;
      Takes = λ p code output. TakesOn (channel_for p) code output;
      get-stored = λ p s.
          ap (λ (r : Read). r.0) (grub_get_fsck-get_on (channel_for p) p s refl)
          ∙ get_on-stored_on t a K F (channel_for p) p s;
      stored-save = λ p q code output s takes.
          ap (λ (u : t.State). stored_on t a K F (channel_for q) u q)
            (grub_save_fsck-save_on (channel_for p) p code output s refl)
          ∙ stored_on-save_on (channel_for p) (channel_for q) p q code output s refl refl takes;
      stored-get = λ p q s apart.
          ap (λ (r : Read). stored_on t a K F (channel_for q) r.1 q)
            (grub_get_fsck-get_on (channel_for p) p s refl)
          ∙ stored_on-get_on t a K F (channel_for p) (channel_for q) p q s apart;
      stored-read = λ p s reads.
          ap (λ (r : Read). stored_on t a K F (channel_for p) r.1 p)
            (grub_get_fsck-get_on (channel_for p) p s refl)
          ∙ stored_on-read t a K F (channel_for p) p s reads;
      stored-clear = λ p q s.
          ap (λ (u : t.State). stored_on t a K F (channel_for q) u q)
            (grub_clear_fsck-clear_on (channel_for p) p s refl)
          ∙ stored_on-clear_on t a K F (channel_for p) (channel_for q) p q s refl refl;
    }
