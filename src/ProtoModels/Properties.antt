-- ===== src/ProtoModels/Properties.antt =====
-- Property types, object type references and interface requirements of
-- onto_platform/proto_models.py.
use lingyunzhi_os_backend.ProtoModels.Enums.{
  LifecycleStatus, DataType, ReferenceType, Cardinality, lifecycle_unspecified, dt_unknown,
}
use lingyunzhi_os_backend.ProtoModels.Json.{Json}
use lingyunzhi_os_backend.ProtoModels.Rules.{
  PropertyValidationConfig, ComplianceConfig, default_compliance,
}
use lingyunzhi_os_backend.Base.{String, []}
use lingyunzhi_os_backend.Dict.{Dict}

pub record SharedPropertyTypeDefinition : Type 0 where
  pub rid : String
  pub api_name : String
  pub display_name : String
  pub description : String
  pub lifecycle_status : LifecycleStatus
  pub data_type : DataType
  pub widget : Dict Json
  pub validation : PropertyValidationConfig
  pub compliance : ComplianceConfig

pub record PropertyTypeDefinition : Type 0 where
  pub rid : String
  pub api_name : String
  pub display_name : String
  pub description : String
  pub lifecycle_status : LifecycleStatus
  pub data_type : DataType
  pub inherit_from_shared_property_type_rid : String
  pub physical_column : String
  pub virtual_expression : String
  pub widget : Dict Json
  pub validation : PropertyValidationConfig
  pub compliance : ComplianceConfig

-- `SharedPropertyTypeDefinition(rid=rid)`
abbrev pub shared_property_type : String → SharedPropertyTypeDefinition
shared_property_type r = record {
  rid = r;
  api_name = "";
  display_name = "";
  description = "";
  lifecycle_status = lifecycle_unspecified;
  data_type = dt_unknown;
  widget = [];
  validation = record { rules = [] };
  compliance = default_compliance;
}

-- `PropertyTypeDefinition(rid=rid)`
abbrev pub property_type : String → PropertyTypeDefinition
property_type r = record {
  rid = r;
  api_name = "";
  display_name = "";
  description = "";
  lifecycle_status = lifecycle_unspecified;
  data_type = dt_unknown;
  inherit_from_shared_property_type_rid = "";
  physical_column = "";
  virtual_expression = "";
  widget = [];
  validation = record { rules = [] };
  compliance = default_compliance;
}

pub record ObjectTypeSpec : Type 0 where
  pub reference_type : ReferenceType
  pub object_type_rid : String
  pub interface_type_rid : String

pub record ObjectLinkRequirement : Type 0 where
  pub rid : String
  pub api_name : String
  pub display_name : String
  pub description : String
  pub cardinality : Cardinality
  pub source_object : ObjectTypeSpec
  pub target_object : ObjectTypeSpec

pub record LinkObjectConstraint : Type 0 where
  pub source_object : ObjectTypeSpec
  pub target_object : ObjectTypeSpec
