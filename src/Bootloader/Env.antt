-- ===== src/Bootloader/Env.antt =====
-- The `BootEnv` trait of src/bootloader/mod.rs: a backend's operations as a record over its state,
-- the trait's default methods, and the state that the init keeps of the environment.
use omnect_os_init.Base.{
  ℕ, Bool, true, false, not, List, [], ◌∷◌, ◌++◌, Option, none, some, Result, ok, err,
}
use omnect_os_init.Base.Text.{Text, lit, text_eq, is_empty}
use omnect_os_init.Partition.Name.{PartitionName, name_text}
use omnect_os_init.Filesystem.ExitCode.{FsckExitCode}
use omnect_os_init.Bootloader.Key.{
  BootEnvKey, validate_update, validate_update_failed, bootloader_updated, fsck_status,
  first_boot_done, factory_reset_last_error, key_text,
}
use omnect_os_init.Bootloader.Record.{
  FsckRecord, Applets, encode_fsck_output, unpack_fsck_text, parse_fsck_text,
}
use omnect_os_init.Bootloader.Truncate.{truncate_on_char_boundary}
use omnect_os_init.Error.{BootEnvError, invalid_value, InitramfsError, degraded_boot}

-- A fallible operation on a backend's state. A read may change the state too: a file that is read
-- once, or a fault that passes.
abbrev pub Op : Type 0 → Type 0 → Type 0
Op S A = S → Result BootEnvError A × S

pub record BootEnv : Type 1 where
  pub State : Type 0
  pub get_env : BootEnvKey → Op State (Option Text)
  pub set_env : BootEnvKey → Option Text → Op State (Unit {0})
  pub save_fsck_status : PartitionName → FsckExitCode → Text → Op State (Unit {0})
  pub get_fsck_status : PartitionName → Op State (Option FsckRecord)
  pub clear_fsck_status : PartitionName → Op State (Unit {0})

-- `FIRST_BOOT_DONE`
unfoldable pub marker : Text
unfolding lit
marker = lit "1"

-- `UPDATE_FLAGS`
abbrev pub update_flags : List BootEnvKey
update_flags = validate_update ∷ validate_update_failed ∷ bootloader_updated ∷ []

abbrev pub map_value :
    {A B S : Type 0} → (A → B) → Result BootEnvError A × S → Result BootEnvError B × S
map_value f (ok a, s) = (ok (f a), s)
map_value f (err e, s) = (err e, s)

-- `Result::is_ok`
abbrev pub succeeded : {A : Type 0} → Result BootEnvError A → Bool
succeeded (ok a) = true
succeeded (err e) = false

abbrev pub is_set : Option Text → Bool
is_set none = false
is_set (some v) = not (is_empty v)

unfoldable pub holds_marker : Option Text → Bool
unfolding text_eq marker
holds_marker none = false
holds_marker (some v) = text_eq v marker

-- `MAX_FACTORY_RESET_FAILURE_REASON_LEN`
abbrev pub max_failure_reason_len : ℕ
max_failure_reason_len = 128

module _ (B : BootEnv) where
  unfoldable pub is_flag_set : BootEnvKey → Op B.State Bool
  is_flag_set key s = map_value is_set (B.get_env key s)

  unfoldable pub is_first_boot_done : Op B.State Bool
  unfolding holds_marker
  is_first_boot_done s = map_value holds_marker (B.get_env first_boot_done s)

  unfoldable pub set_first_boot_done : Op B.State (Unit {0})
  set_first_boot_done s = B.set_env first_boot_done (some marker) s

  -- The empty text stands for a panic of the truncation, which never happens.
  unfoldable pub save_factory_reset_failure : PartitionName → Text → Op B.State (Unit {0})
  unfolding truncate_on_char_boundary
  save_factory_reset_failure partition reason s =
      let short : Text = elim (truncate_on_char_boundary reason max_failure_reason_len) [
        | none ↦ []
        | some t ↦ t
      ] in
      B.set_env factory_reset_last_error (some (name_text partition ++ (lit ":" ++ short))) s

unfoldable pub invalid_fsck_record : BootEnvKey → Text → BootEnvError
invalid_fsck_record key reason = invalid_value (key_text key) (lit "fsck record " ++ reason)

unfoldable pub record_of_text : PartitionName → Text → Result BootEnvError (Option FsckRecord)
unfolding parse_fsck_text invalid_fsck_record
record_of_text p text = elim (parse_fsck_text text) [
  | some record_ ↦ ok (some record_)
  | none ↦ err (invalid_fsck_record (fsck_status p) (lit "has no exit code"))
]

-- A value that cannot be unpacked now, because an applet cannot run, is kept for a later boot.
unfoldable pub record_of_value :
    Applets → PartitionName → Text → Result BootEnvError (Option FsckRecord)
unfolding record_of_text unpack_fsck_text
record_of_value a p encoded = elim (unpack_fsck_text a encoded) [
  | ok (some text) ↦ record_of_text p text
  | ok none ↦ err (invalid_fsck_record (fsck_status p) (lit "does not unpack"))
  | err e ↦ ok none
]

unfoldable pub record_of_stored :
    Applets
    → PartitionName
    → Result BootEnvError (Option Text)
    → Result BootEnvError (Option FsckRecord)
unfolding record_of_value
record_of_stored a p (err e) = err e
record_of_stored a p (ok none) = ok none
record_of_stored a p (ok (some encoded)) = record_of_value a p encoded

module _ (a : Applets) {S : Type 0} (get_env : BootEnvKey → Op S (Option Text)) where
  unfoldable pub get_fsck_env : PartitionName → Op S (Option FsckRecord)
  unfolding record_of_stored
  get_fsck_env p s = let (r, s') = get_env (fsck_status p) s in (record_of_stored a p r, s')

-- The trait's default fsck methods over a backend's `get_env` and `set_env`.
module _ (a : Applets) {S : Type 0} where
  unfoldable pub with_default_fsck :
      (BootEnvKey → Op S (Option Text)) → (BootEnvKey → Option Text → Op S (Unit {0})) → BootEnv
  unfolding get_fsck_env encode_fsck_output
  with_default_fsck get set = record {
    State = S;
    get_env = get;
    set_env = set;
    save_fsck_status =
        λ p code output s. set (fsck_status p) (some (encode_fsck_output a code.bits output)) s;
    get_fsck_status = get_fsck_env a get;
    clear_fsck_status = λ p s. set (fsck_status p) none s;
  }

-- Opened, or unavailable with the reason.
pub data BootEnvState (B : BootEnv) : Type 0 where
  available : B.State → BootEnvState B
  degraded : BootEnvError → BootEnvState B

pub data BootEnvDecision (B : BootEnv) : Type 0 where
  go_on : BootEnvState B → BootEnvDecision B
  abort : InitramfsError → BootEnvDecision B

unfoldable pub is_degraded : {B : BootEnv} → BootEnvState B → Bool
is_degraded (available s) = false
is_degraded (degraded e) = true

unfoldable pub classify_boot_env :
    (B : BootEnv) → Result BootEnvError B.State → Bool → BootEnvDecision B
classify_boot_env B (ok s) is_release = go_on (available s)
classify_boot_env B (err e) true = go_on (degraded e)
classify_boot_env B (err e) false = abort (degraded_boot e)
