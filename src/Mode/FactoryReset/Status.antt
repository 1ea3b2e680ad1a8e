-- ===== src/Mode/FactoryReset/Status.antt =====
-- The statuses of src/mode/factory_reset/mod.rs: what a reset reports on each of its ends.
use omnect_os_init.Base.{true, false, List, [], ◌∷◌, ◌++◌, Option, none, some, map}
use omnect_os_init.Base.Text.{Text, lit, join}
use omnect_os_init.Error.{
  invalid_config, missing_field, invalid_preserve, InitramfsError, factory_reset,
}
use omnect_os_init.Error.Display.{factory_reset_text, initramfs_text}
use omnect_os_init.Mode.FactoryReset.Backup.{
  RestoreResult, success, partial_failure, context_separator,
}
use omnect_os_init.Partition.Name.{PartitionName, name_text}
use omnect_os_init.Runtime.Ods.{FactoryResetStatus, FactoryResetStatusCode}

-- The partition that could not be prepared, and why.
pub record ResetFailureSignal : Type 0 where
  pub partition : PartitionName
  pub reason : Text

-- What a reset gives.
abbrev pub Outcome : Type 0
Outcome = FactoryResetStatus × Option ResetFailureSignal

unfoldable pub error_text : InitramfsError → Text
unfolding factory_reset_text initramfs_text
error_text (factory_reset inner) = factory_reset_text inner
error_text other = initramfs_text other

unfoldable pub failure_status_code : InitramfsError → FactoryResetStatusCode
failure_status_code (factory_reset (invalid_config _)) = FactoryResetStatusCode.invalid
failure_status_code (factory_reset (missing_field _)) = FactoryResetStatusCode.config_error
failure_status_code (factory_reset (invalid_preserve _)) = FactoryResetStatusCode.config_error
failure_status_code _ = FactoryResetStatusCode.error

unfoldable pub aborted_status : InitramfsError → FactoryResetStatus
unfolding failure_status_code error_text
aborted_status e = record {
  status = failure_status_code e;
  error = some (error_text e);
  context = none;
  paths = [];
  data_wiped = false;
}

unfoldable pub join_context : Option Text → Option Text → Option Text
unfolding context_separator
join_context (some a) (some b) = some (a ++ (context_separator ++ b))
join_context (some a) none = some a
join_context none second = second

names_text : List PartitionName → Text
unfolding join name_text lit
names_text names = join (lit ",") (map name_text names)

unfoldable pub retry_note : List PartitionName → Option Text
unfolding names_text
retry_note [] = none
retry_note (p ∷ ps) = some (names_text (p ∷ ps) ++ lit " reformatted twice")

unfoldable pub mkfs_failed_note : List PartitionName → Text
unfolding names_text
mkfs_failed_note failed = names_text failed ++ lit ": mkfs failed twice"

unfoldable pub exhausted_status :
    ResetFailureSignal → List PartitionName → List Text → FactoryResetStatus
unfolding retry_note
exhausted_status signal retried preserve_list = record {
  status = FactoryResetStatusCode.error;
  error = some signal.reason;
  context = retry_note retried;
  paths = preserve_list;
  data_wiped = true;
}

unfoldable pub exhausted_outcome : ResetFailureSignal → List PartitionName → List Text → Outcome
unfolding exhausted_status
exhausted_outcome signal retried preserve_list =
    (exhausted_status signal retried preserve_list, some signal)

-- The status of a reset that wiped, with its result.
unfoldable pub wiped :
    FactoryResetStatusCode → Option Text → Option Text → List Text → FactoryResetStatus
wiped code error context preserve_list = record {
  status = code;
  error = error;
  context = context;
  paths = preserve_list;
  data_wiped = true;
}

restored_error : List PartitionName → Text → Text
unfolding mkfs_failed_note context_separator
restored_error [] error = error
restored_error (p ∷ ps) error = mkfs_failed_note (p ∷ ps) ++ (context_separator ++ error)

unfoldable pub restored_status :
    (retried reformat_failed : List PartitionName) → RestoreResult → List Text → FactoryResetStatus
unfolding wiped restored_error join_context retry_note mkfs_failed_note
restored_status retried (p ∷ ps) success preserve_list =
    wiped FactoryResetStatusCode.error (some (mkfs_failed_note (p ∷ ps))) (retry_note retried)
      preserve_list
restored_status (p ∷ ps) [] success preserve_list =
    wiped FactoryResetStatusCode.warning none (retry_note (p ∷ ps)) preserve_list
restored_status [] [] success preserve_list =
    wiped FactoryResetStatusCode.success none (retry_note []) preserve_list
restored_status retried failed (partial_failure context error) preserve_list =
    wiped FactoryResetStatusCode.error (some (restored_error failed error))
      (join_context (retry_note retried) (some context)) preserve_list

unfoldable pub destructive_phase_failure_status : InitramfsError → List Text → FactoryResetStatus
unfolding wiped error_text
destructive_phase_failure_status e paths =
    wiped FactoryResetStatusCode.error (some (error_text e)) none paths

unfoldable pub apply_wipe_note : FactoryResetStatus → Option Text → FactoryResetStatus
unfolding join_context
apply_wipe_note status none = status
apply_wipe_note status (some note) = record status {
  status = FactoryResetStatusCode.error;
  error = join_context (some note) status.error;
}
