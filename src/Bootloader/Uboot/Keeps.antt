-- ===== src/Bootloader/Uboot/Keeps.antt =====
-- The backend of src/bootloader/uboot.rs keeps values and records, with tools that work.
use omnect_os_init.Base.{
  ◌≡◌, refl, ◌∙◌, ap, ℕ, true, false, not, zero, suc, List, [], ◌∷◌, ◌++◌, Option, none, some,
  if◌then◌else◌, Result, ok, all, arith, Option-cases, inl, inr,
}
use omnect_os_init.Base.Equality.{◌=?◌, =?_refl}
use omnect_os_init.Base.Text.{
  Text, lit, text_eq, is_empty, is_whitespace, trim, trim_start, trim_end,
}
use omnect_os_init.Base.Text.Digits.{IsI32}
use omnect_os_init.Base.Text.Numbers.{ℤ, pos, decimal_ℤ}
use omnect_os_init.Bootloader.Env.{marker, with_default_fsck, get_fsck_env, record_of_stored}
use omnect_os_init.Bootloader.Key.{BootEnvKey, fsck_status, key_text, key_equality}
use omnect_os_init.Bootloader.Key.Distinct.{text_eq-key_text, fsck_status-key}
use omnect_os_init.Bootloader.Laws.{KeepsValues, KeepsRecords}
use omnect_os_init.Bootloader.Record.{FsckRecord, Applets, encode_fsck_output}
use omnect_os_init.Bootloader.Packed.{IsPlain, record_of_stored-encode_fsck_output}
use omnect_os_init.Bootloader.Record.RoundTrip.{IsWorking, encode_fsck_output-encoded}
use omnect_os_init.Bootloader.Uboot.{
  FwTools, printed_value, printed, run_fw_printenv_result, run_fw_printenv, run_fw_setenv,
  uboot_boot_env,
}
use omnect_os_init.Error.{BootEnvError}
use omnect_os_init.Filesystem.ExitCode.{FsckExitCode}
use omnect_os_init.Partition.Name.{PartitionName, name_equality}

-- An empty value unsets a variable.
abbrev pub written : Text → Option Text
written v = if is_empty v then none else some v

-- What is documented of `fw_printenv -n` and `fw_setenv`, with room for what is written: the value
-- of a variable is printed with a newline, a variable that is not set gives exit code 1, and a
-- write sets one variable.
pub record FwKeeps (t : FwTools) : Type 0 where
  pub variable : t.State → Text → Option Text
  pub status : Text
  pub complaint : Text → Text
  pub print-set :
      (var v : Text) (s : t.State)
      → variable s var ≡ some v
      → t.printenv var s ≡ (
        ok (record {
          code = some (pos zero);
          stdout = v ++ b'\n' ∷ [];
          stderr = [];
          status = status;
        }),
        s,
      )
  pub print-unset :
      (var : Text) (s : t.State)
      → variable s var ≡ none
      → t.printenv var s ≡ (
        ok (record {
          code = some (pos (suc zero));
          stdout = [];
          stderr = complaint var;
          status = status;
        }),
        s,
      )
  pub unset :
      (var j : Text) (s : t.State)
      → variable (t.setenv var none s).1 j ≡ (if text_eq var j then none else variable s j)
  pub set :
      (var j v : Text) (s : t.State)
      → variable (t.setenv var (some v) s).1 j ≡ (if text_eq var j then written v else variable s j)

-- What the read of a variable gives.
abbrev pub shown : Option Text → Option Text
shown none = none
shown (some v) = printed_value (v ++ b'\n' ∷ [])

printed_value-marker : shown (written marker) ≡ some marker
unfolding printed_value trim trim_start trim_end is_whitespace marker lit
printed_value-marker = refl

trim_start-text :
    (v r : Text)
    → all (λ c. not (is_whitespace c)) v ≡ true
    → is_empty v ≡ false
    → trim_start is_whitespace (v ++ r) ≡ v ++ r
unfolding trim_start
trim_start-text [] r h filled = cc
trim_start-text (c ∷ v) r h filled = ground arith

trim_end-newline :
    (v : Text)
    → all (λ c. not (is_whitespace c)) v ≡ true
    → trim_end is_whitespace (v ++ b'\n' ∷ []) ≡ v
unfolding trim_end
trim_end-newline [] h = unfold is_whitespace in refl
trim_end-newline (c ∷ []) h = unfold is_whitespace in ground arith
trim_end-newline (c ∷ d ∷ v) h = rw (trim_end-newline (d ∷ v) (ground arith)) refl

-- A text without white space reads back as it was written.
shown-written :
    (v : Text)
    → all (λ c. not (is_whitespace c)) v ≡ true
    → is_empty v ≡ false
    → shown (written v) ≡ some v
unfolding printed_value trim
shown-written [] h filled = cc
shown-written (c ∷ v) h filled =
    rw (trim_start-text (c ∷ v) (b'\n' ∷ []) h filled, trim_end-newline (c ∷ v) h) refl

module _ (t : FwTools) (a : Applets) (K : FwKeeps t) where
  abbrev value_of : t.State → BootEnvKey → Option Text
  value_of s key = shown (K.variable s (key_text key))

  get_env-value :
      (key : BootEnvKey) (s : t.State)
      → run_fw_printenv t (key_text key) s ≡ (ok (value_of s key), s)
  unfolding run_fw_printenv run_fw_printenv_result printed
  get_env-value key s = elim (Option-cases (K.variable s (key_text key))) [
    | inl unset ↦ rw (K.print-unset (key_text key) s unset, unset) refl
    | inr (v, set) ↦ rw (K.print-set (key_text key) v s set, set) refl
  ]

  value_of-unset :
      (key j : BootEnvKey) (s : t.State)
      → value_of (run_fw_setenv t (key_text key) none s).1 j
        ≡ (if key =? j then none else value_of s j)
  unfolding run_fw_setenv
  value_of-unset key j s =
      rw (K.unset (key_text key) (key_text j) s, text_eq-key_text key j) (ground arith)

  value_of-set :
      (key j : BootEnvKey) (v : Text) (s : t.State)
      → value_of (run_fw_setenv t (key_text key) (some v) s).1 j
        ≡ (if key =? j then shown (written v) else value_of s j)
  unfolding run_fw_setenv
  value_of-set key j v s =
      rw (K.set (key_text key) (key_text j) v s, text_eq-key_text key j) (ground arith)

  -- The backend keeps values, and takes every value.
  pub uboot_boot_env-KeepsValues : KeepsValues (uboot_boot_env t a)
  unfolding uboot_boot_env with_default_fsck
  uboot_boot_env-KeepsValues = record {
    value = value_of;
    Takes = λ v. Unit;
    get-value = get_env-value;
    value-unset = value_of-unset;
    value-marked =
        λ key s. value_of-set key key marker s ∙ rw (=?_refl key, printed_value-marker) refl;
    value-other = λ key j v s takes apart. value_of-set key j v s ∙ rw apart refl;
  }

  record_at : t.State → PartitionName → Result BootEnvError (Option FsckRecord)
  record_at s p = record_of_stored a p (ok (value_of s (fsck_status p)))

  get_fsck_env-record_at :
      (p : PartitionName) (s : t.State)
      → get_fsck_env a (λ key. run_fw_printenv t (key_text key)) p s ≡ (record_at s p, s)
  unfolding get_fsck_env record_at
  get_fsck_env-record_at p s =
      ap (λ (r : Result BootEnvError (Option Text) × t.State). (record_of_stored a p r.0, r.1))
        (get_env-value (fsck_status p) s)

  module _ (w : IsWorking a) (plain : IsPlain a w) where
    shown-packed :
        (code : ℤ) (output : Text)
        → shown (written (encode_fsck_output a code output))
          ≡ some (encode_fsck_output a code output)
    shown-packed code output =
        let b : List ℕ = a.bytes (decimal_ℤ code ++ b'\n' ∷ output) in
        rw (encode_fsck_output-encoded a code output w)
          (shown-written _ (plain.no-space b) (plain.filled b))

    record_at-save :
        (p q : PartitionName) (code : FsckExitCode) (output : Text) (s : t.State)
        → IsI32 code.bits
        → record_at
            (run_fw_setenv t
              (key_text (fsck_status p))
              (some (encode_fsck_output a code.bits output))
              s).1
            q
          ≡ (if p =? q
              then ok (some (record { exit_code = code; output = output }))
              else record_at s q)
    unfolding record_at
    record_at-save p q code output s fits =
        rw
          (
            value_of-set (fsck_status p) (fsck_status q) (encode_fsck_output a code.bits output) s,
            fsck_status-key p q,
            shown-packed code.bits output,
          )
          (ground (arith, record_of_stored-encode_fsck_output a q code.bits output w fits))

    record_at-clear :
        (p q : PartitionName) (s : t.State)
        → record_at (run_fw_setenv t (key_text (fsck_status p)) none s).1 q
          ≡ (if p =? q then ok none else record_at s q)
    unfolding record_at record_of_stored
    record_at-clear p q s =
        rw (value_of-unset (fsck_status p) (fsck_status q) s, fsck_status-key p q) (ground arith)

    -- The backend keeps records, and takes those with an exit code that fits an `i32`.
    pub uboot_boot_env-KeepsRecords : KeepsRecords (uboot_boot_env t a)
    unfolding uboot_boot_env with_default_fsck
    uboot_boot_env-KeepsRecords = record {
      stored = record_at;
      Takes = λ p code output. IsI32 code.bits;
      get-stored = λ p s.
          ap (λ (r : Result BootEnvError (Option FsckRecord) × t.State). r.0)
            (get_fsck_env-record_at p s);
      stored-save = record_at-save;
      stored-get = λ p q s apart.
          ap (λ (r : Result BootEnvError (Option FsckRecord) × t.State). record_at r.1 q)
            (get_fsck_env-record_at p s);
      stored-read = λ p s read.
          ap (λ (r : Result BootEnvError (Option FsckRecord) × t.State). record_at r.1 p)
            (get_fsck_env-record_at p s);
      stored-clear = record_at-clear;
    }

    pub uboot_boot_env-Takes :
        (p : PartitionName) (code : FsckExitCode) (output : Text)
        → IsI32 code.bits
        → uboot_boot_env-KeepsRecords.Takes p code output
    unfolding uboot_boot_env-KeepsRecords
    uboot_boot_env-Takes p code output fits = fits
