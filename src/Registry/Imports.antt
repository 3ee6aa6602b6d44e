-- ===== src/Registry/Imports.antt =====
-- onto_platform/registry/imports.py
pub mod Merging
use lingyunzhi_os_backend.Base.{String, List, truthy, if◌then◌else◌}
use lingyunzhi_os_backend.Dict.{merge}
use lingyunzhi_os_backend.ProtoModels.{OntologyRegistry}
use lingyunzhi_os_backend.Registry.Crud.{validated}
use lingyunzhi_os_backend.Registry.Crud.Errors.{Crud}

-- The last branch of the source, an unknown mode, cannot be reached: the enumeration has no more.
pub data ImportMode : Type 0 where
  replace_mode merge_mode : ImportMode

-- The candidate of each mode.
unfoldable pub combine : OntologyRegistry → OntologyRegistry → ImportMode → OntologyRegistry
combine base incoming replace_mode = incoming
combine base incoming merge_mode = record {
  version = if truthy incoming.version then incoming.version else base.version;
  shared_property_types = merge base.shared_property_types incoming.shared_property_types;
  interface_types = merge base.interface_types incoming.interface_types;
  object_types = merge base.object_types incoming.object_types;
  link_types = merge base.link_types incoming.link_types;
  action_types = merge base.action_types incoming.action_types;
}

unfoldable pub import_into_registry :
    OntologyRegistry → OntologyRegistry → ImportMode → List String → Crud OntologyRegistry
import_into_registry base incoming mode connection_ids =
    validated (combine base incoming mode) connection_ids
