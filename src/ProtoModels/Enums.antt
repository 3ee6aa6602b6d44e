-- ===== src/ProtoModels/Enums.antt =====
-- The enumerations of onto_platform/proto_models.py.
use lingyunzhi_os_backend.Base.{ℕ, Bool, nat_eq}

pub data DataType : Type 0 where
  dt_unknown dt_string dt_integer dt_double dt_boolean dt_timestamp dt_date dt_attachment : DataType

pub data LifecycleStatus : Type 0 where
  lifecycle_unspecified active experimental deprecated example : LifecycleStatus

pub data Sensitivity : Type 0 where
  sensitivity_unspecified public internal confidential restricted : Sensitivity

pub data MaskingStrategy : Type 0 where
  mask_none mask_nullify mask_redact_full show_last_4 show_first_2 : MaskingStrategy
  mask_email_domain mask_email_user mask_phone_middle : MaskingStrategy

pub data InterfaceCategory : Type 0 where
  interface_category_invalid object_interface link_interface : InterfaceCategory

pub data Cardinality : Type 0 where
  cardinality_unspecified one_to_one one_to_many many_to_many : Cardinality

-- `ObjectTypeSpec.ReferenceType`
pub data ReferenceType : Type 0 where
  reference_type_invalid self explicit_object explicit_interface : ReferenceType

pub data ActionSafetyLevel : Type 0 where
  safety_unspecified safety_read_only safety_idempotent_write : ActionSafetyLevel
  safety_non_idempotent safety_critical : ActionSafetyLevel

pub data SideEffectCategory : Type 0 where
  category_unspecified data_mutation data_deletion notification : SideEffectCategory
  external_api_call billing_event access_control other : SideEffectCategory

-- `ActionExecutionConfig.EngineType`
pub data EngineType : Type 0 where
  engine_unspecified engine_native_crud engine_python_venv : EngineType
  engine_sql_runner engine_webhook : EngineType

-- The place of a data type in its enumeration, by which two of them are compared.
abbrev data_type_index : DataType → ℕ
data_type_index dt_unknown = 0
data_type_index dt_string = 1
data_type_index dt_integer = 2
data_type_index dt_double = 3
data_type_index dt_boolean = 4
data_type_index dt_timestamp = 5
data_type_index dt_date = 6
data_type_index dt_attachment = 7

-- `a == b` on data types
unfoldable pub same_data_type : DataType → DataType → Bool
same_data_type a b = nat_eq (data_type_index a) (data_type_index b)

abbrev category_index : InterfaceCategory → ℕ
category_index interface_category_invalid = 0
category_index object_interface = 1
category_index link_interface = 2

-- `a == b` on interface categories
unfoldable pub same_category : InterfaceCategory → InterfaceCategory → Bool
same_category a b = nat_eq (category_index a) (category_index b)
