-- ===== src/Registry/Findings.antt =====
-- `Severity`, `Finding` and `ValidatorCtx` of onto_platform/registry/validator.py. A message is
-- kept as its template with the values that are put in.
use lingyunzhi_os_backend.Base.{String, Bool, true, false, List, select}
use lingyunzhi_os_backend.ProtoModels.{InterfaceCategory, DataType}

pub data Severity : Type 0 where
  error warning : Severity

pub data Message : Type 0 where
  -- checks/structural.py
  invalid_rid : String → String → Message
  rid_prefix : String → String → Message
  invalid_api_name : String → Message
  -- checks/refs.py: what is expected, and the identifier
  does_not_exist : String → String → Message
  -- checks/interface_category.py
  no_object_constraint no_link_requirements : Message
  invalid_category : InterfaceCategory → Message
  cannot_extend : String → InterfaceCategory → InterfaceCategory → Message
  cycle_detected : List String → Message
  -- checks/property_backing.py
  backing_missing backing_both : Message
  data_type_mismatch : DataType → String → DataType → Message
  -- checks/asset_mapping.py
  no_asset_mapping : Message
  connection_not_registered : String → Message
  -- checks/cross_property.py
  does_not_resolve : String → Message

-- A value of the dictionary `details`.
pub data Detail : Type 0 where
  text : String → Detail
  texts : List String → Detail
  data_type : DataType → Detail

pub record Finding : Type 0 where
  pub severity : Severity
  pub code : String
  pub path : String
  pub message : Message
  pub details : List (String × Detail)

pub record ValidatorCtx : Type 0 where
  pub connection_ids : List String

abbrev is_error_severity : Severity → Bool
is_error_severity error = true
is_error_severity warning = false

-- `Finding.is_error`
abbrev pub is_error : Finding → Bool
is_error f = is_error_severity f.severity

-- `[f for f in findings if f.is_error]`
unfoldable pub errors : List Finding → List Finding
unfolding select
errors = select is_error
