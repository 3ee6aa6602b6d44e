-- ===== src/ProtoModels/Entities.antt =====
-- Interface, object, link and action types of onto_platform/proto_models.py.
use lingyunzhi_os_backend.ProtoModels.Enums.{
  LifecycleStatus, InterfaceCategory, Cardinality, DataType, EngineType, SideEffectCategory,
  ActionSafetyLevel, lifecycle_unspecified, interface_category_invalid, cardinality_unspecified,
  engine_unspecified, safety_unspecified,
}
use lingyunzhi_os_backend.ProtoModels.Json.{Json}
use lingyunzhi_os_backend.ProtoModels.Rules.{
  EntityValidationConfig, AssetMapping, default_asset_mapping, default_entity_validation,
}
use lingyunzhi_os_backend.ProtoModels.Properties.{
  PropertyTypeDefinition, ObjectLinkRequirement, LinkObjectConstraint,
}
use lingyunzhi_os_backend.Base.{String, Bool, true, false, Option, none, List, []}
use lingyunzhi_os_backend.Dict.{Dict}

pub record InterfaceTypeDefinition : Type 0 where
  pub rid : String
  pub api_name : String
  pub display_name : String
  pub description : String
  pub lifecycle_status : LifecycleStatus
  pub category : InterfaceCategory
  pub extends_interface_type_rids : List String
  pub required_shared_property_type_rids : List String
  pub link_requirements : List ObjectLinkRequirement
  pub object_constraint : Option LinkObjectConstraint

pub record ObjectTypeDefinition : Type 0 where
  pub rid : String
  pub api_name : String
  pub display_name : String
  pub description : String
  pub lifecycle_status : LifecycleStatus
  pub property_types : Dict PropertyTypeDefinition
  pub implements_interface_type_rids : List String
  pub primary_key_property_type_rids : List String
  pub validation : EntityValidationConfig
  pub asset_mapping : AssetMapping

pub record LinkTypeDefinition : Type 0 where
  pub rid : String
  pub api_name : String
  pub display_name : String
  pub description : String
  pub lifecycle_status : LifecycleStatus
  pub source_object_type_rid : String
  pub source_interface_type_rid : String
  pub target_object_type_rid : String
  pub target_interface_type_rid : String
  pub property_types : Dict PropertyTypeDefinition
  pub cardinality : Cardinality
  pub primary_key_property_type_rids : List String
  pub validation : EntityValidationConfig
  pub implements_interface_type_rids : List String
  pub asset_mapping : AssetMapping

pub record ActionParameter : Type 0 where
  pub api_name : String
  pub display_name : String
  pub description : String
  pub required : Bool
  pub explicit_type : Option DataType
  pub derived_from_object_type_rid : String
  pub derived_from_link_type_rid : String
  pub derived_from_interface_type_rid : String

pub record ActionExecutionConfig : Type 0 where
  pub engine_type : EngineType
  pub is_batch : Bool
  pub is_sync : Bool
  pub native_crud_json : String
  pub python_script : String
  pub sql_template : String
  pub webhook_config_json : String

pub record EditDeclaration : Type 0 where
  pub edit_type : String
  pub object_type : String
  pub target_object_type : String
  pub property_updates : List (Dict Json)
  pub target_property : String
  pub property_value_change : String
  pub condition : String
  pub error_message : String

pub record SideEffectDeclaration : Type 0 where
  pub category : SideEffectCategory
  pub description : String

pub record ActionTypeDefinition : Type 0 where
  pub rid : String
  pub api_name : String
  pub display_name : String
  pub description : String
  pub lifecycle_status : LifecycleStatus
  pub parameters : List ActionParameter
  pub execution : ActionExecutionConfig
  pub safety_level : ActionSafetyLevel
  pub side_effects : List SideEffectDeclaration
  pub edited_object_types : List String
  pub edits : List EditDeclaration

-- `InterfaceTypeDefinition(rid=rid)`, and so on: the fields at their defaults.
abbrev pub interface_type : String → InterfaceTypeDefinition
interface_type r = record {
  rid = r;
  api_name = "";
  display_name = "";
  description = "";
  lifecycle_status = lifecycle_unspecified;
  category = interface_category_invalid;
  extends_interface_type_rids = [];
  required_shared_property_type_rids = [];
  link_requirements = [];
  object_constraint = none;
}

abbrev pub object_type : String → ObjectTypeDefinition
object_type r = record {
  rid = r;
  api_name = "";
  display_name = "";
  description = "";
  lifecycle_status = lifecycle_unspecified;
  property_types = [];
  implements_interface_type_rids = [];
  primary_key_property_type_rids = [];
  validation = default_entity_validation;
  asset_mapping = default_asset_mapping;
}

abbrev pub link_type : String → LinkTypeDefinition
link_type r = record {
  rid = r;
  api_name = "";
  display_name = "";
  description = "";
  lifecycle_status = lifecycle_unspecified;
  source_object_type_rid = "";
  source_interface_type_rid = "";
  target_object_type_rid = "";
  target_interface_type_rid = "";
  property_types = [];
  cardinality = cardinality_unspecified;
  primary_key_property_type_rids = [];
  validation = default_entity_validation;
  implements_interface_type_rids = [];
  asset_mapping = default_asset_mapping;
}

abbrev pub action_type : String → ActionTypeDefinition
action_type r = record {
  rid = r;
  api_name = "";
  display_name = "";
  description = "";
  lifecycle_status = lifecycle_unspecified;
  parameters = [];
  execution = record {
    engine_type = engine_unspecified;
    is_batch = false;
    is_sync = true;
    native_crud_json = "";
    python_script = "";
    sql_template = "";
    webhook_config_json = "";
  };
  safety_level = safety_unspecified;
  side_effects = [];
  edited_object_types = [];
  edits = [];
}
