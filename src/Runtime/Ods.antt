-- ===== src/Runtime/Ods.antt =====
-- `OdsStatus` of src/runtime/omnect_device_service.rs: what the init reports of this boot.
use omnect_os_init.Base.{Bool, false, List, [], Option, none, some, if◌then◌else◌}
use omnect_os_init.Base.Dict.{Dict, insert}
use omnect_os_init.Base.Text.{Text}
use omnect_os_init.Base.Text.Numbers.{ℤ}
use omnect_os_init.Partition.Name.{PartitionName, name_equality}
use omnect_os_init.Filesystem.ExitCode.{FsckExitCode, is_clean}

pub data FactoryResetStatusCode : Type 0 where
  success invalid error config_error warning : FactoryResetStatusCode

pub record FsckStatus : Type 0 where
  pub code : ℤ
  pub output : Text

pub record DegradedBootStatus : Type 0 where
  pub reason : Text

pub data ResizeOutcome : Type 0 where
  skipped_fsck tool_error invalid_layout : ResizeOutcome

pub record ResizeStatus : Type 0 where
  pub outcome : ResizeOutcome
  pub reason : Text

pub data ExtraBootArgsOutcome : Type 0 where
  file_read_failed read_failed set_env_failed read_back_failed : ExtraBootArgsOutcome
  read_back_mismatch : ExtraBootArgsOutcome

pub record ExtraBootArgsStatus : Type 0 where
  pub outcome : ExtraBootArgsOutcome
  pub reason : Text

pub record FactoryResetStatus : Type 0 where
  pub status : FactoryResetStatusCode
  pub error : Option Text
  pub context : Option Text
  pub paths : List Text
  pub data_wiped : Bool

pub record OdsStatus : Type 0 where
  pub fsck : Dict PartitionName FsckStatus
  pub factory_reset : Option FactoryResetStatus
  pub degraded_boot : Option DegradedBootStatus
  pub first_boot : Bool
  pub resize_data : Option ResizeStatus
  pub extra_bootargs : Option ExtraBootArgsStatus

-- `OdsStatus::new`
abbrev pub new_status : OdsStatus
new_status = record {
  fsck = [];
  factory_reset = none;
  degraded_boot = none;
  first_boot = false;
  resize_data = none;
  extra_bootargs = none;
}

unfoldable pub record_fsck_result : PartitionName → FsckExitCode → Text → OdsStatus → OdsStatus
record_fsck_result partition code output o =
    if is_clean code
    then o
    else record o { fsck = insert partition (record { code = code.bits; output = output }) o.fsck }

abbrev pub set_factory_reset : FactoryResetStatus → OdsStatus → OdsStatus
set_factory_reset status o = record o { factory_reset = some status }

abbrev pub set_degraded_boot : Text → OdsStatus → OdsStatus
set_degraded_boot reason o = record o { degraded_boot = some (record { reason = reason }) }

abbrev pub set_resize_status : ResizeStatus → OdsStatus → OdsStatus
set_resize_status status o = record o { resize_data = some status }

abbrev pub set_extra_bootargs_status : ExtraBootArgsStatus → OdsStatus → OdsStatus
set_extra_bootargs_status status o = record o { extra_bootargs = some status }
