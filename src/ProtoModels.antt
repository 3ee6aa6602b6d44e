-- ===== src/ProtoModels.antt =====
-- onto_platform/proto_models.py: the registry of an ontology, and the empty registry.
mod Enums
mod Json
mod Rules
mod Properties
mod Entities
pub use Enums.{
  DataType, dt_unknown, dt_string, dt_integer, dt_double, dt_boolean, dt_timestamp, dt_date,
  dt_attachment, LifecycleStatus, lifecycle_unspecified, active, experimental, deprecated, example,
  Sensitivity, sensitivity_unspecified, public, internal, confidential, restricted, MaskingStrategy,
  mask_none, mask_nullify, mask_redact_full, show_last_4, show_first_2, mask_email_domain,
  mask_email_user, mask_phone_middle, InterfaceCategory, interface_category_invalid,
  object_interface, link_interface, Cardinality, ReferenceType, ActionSafetyLevel,
  SideEffectCategory, EngineType,
}
unfoldable pub use Enums.{same_data_type, same_category}
pub use Json.*
pub use Rules.*
pub use Properties.*
pub use Entities.*
use lingyunzhi_os_backend.Base.{String, []}
use lingyunzhi_os_backend.Dict.{Dict}

abbrev pub empty_registry_version : String
empty_registry_version = "__empty__"

pub record OntologyRegistry : Type 0 where
  pub version : String
  pub shared_property_types : Dict SharedPropertyTypeDefinition
  pub interface_types : Dict InterfaceTypeDefinition
  pub object_types : Dict ObjectTypeDefinition
  pub link_types : Dict LinkTypeDefinition
  pub action_types : Dict ActionTypeDefinition

abbrev pub empty_registry : OntologyRegistry
empty_registry = record {
  version = empty_registry_version;
  shared_property_types = [];
  interface_types = [];
  object_types = [];
  link_types = [];
  action_types = [];
}
