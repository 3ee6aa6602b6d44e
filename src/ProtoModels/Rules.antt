-- ===== src/ProtoModels/Rules.antt =====
-- Compliance, asset mappings and validation rules of onto_platform/proto_models.py.
use lingyunzhi_os_backend.ProtoModels.Enums.{
  Sensitivity, MaskingStrategy, sensitivity_unspecified, mask_none,
}
use lingyunzhi_os_backend.ProtoModels.Json.{Float}
use lingyunzhi_os_backend.Base.{ℕ, String, Bool, false, Option, List, []}

pub record ComplianceConfig : Type 0 where
  pub sensitivity : Sensitivity
  pub masking : MaskingStrategy

abbrev pub default_compliance : ComplianceConfig
default_compliance = record { sensitivity = sensitivity_unspecified; masking = mask_none }

pub record AssetMapping : Type 0 where
  pub read_connection_id : String
  pub read_asset_path : String
  pub writeback_enabled : Bool
  pub writeback_connection_id : String
  pub writeback_asset_path : String

abbrev pub default_asset_mapping : AssetMapping
default_asset_mapping = record {
  read_connection_id = "";
  read_asset_path = "";
  writeback_enabled = false;
  writeback_connection_id = "";
  writeback_asset_path = "";
}

pub data NotNullRule : Type 0 where
  not_null_rule : NotNullRule

pub record RangeRule : Type 0 where
  pub min : Option Float
  pub max : Option Float
  pub min_inclusive : Bool
  pub max_inclusive : Bool

-- A Python `int`; `negsuc n` is -(n + 1).
pub data ℤ : Type 0 where
  pos negsuc : ℕ → ℤ

pub record LengthRule : Type 0 where
  pub min_length : Option ℤ
  pub max_length : Option ℤ

pub record PatternRule : Type 0 where
  pub regex : String

pub record EnumValue : Type 0 where
  pub value : String
  pub display_name : String

pub record EnumRule : Type 0 where
  pub allowed_values : List EnumValue

pub record PropertyValidationRule : Type 0 where
  pub error_message : String
  pub not_null : Option NotNullRule
  pub range : Option RangeRule
  pub length : Option LengthRule
  pub pattern : Option PatternRule
  pub enum_values : Option EnumRule

pub record PropertyValidationConfig : Type 0 where
  pub rules : List PropertyValidationRule

pub record CrossPropertyExpression : Type 0 where
  pub expression : String

pub record EntityValidationRule : Type 0 where
  pub error_message : String
  pub cross_property : Option CrossPropertyExpression

pub record EntityValidationConfig : Type 0 where
  pub rules : List EntityValidationRule

abbrev pub default_entity_validation : EntityValidationConfig
default_entity_validation = record { rules = [] }
