-- ===== src/Registry/Samples.antt =====
-- A small registry for tests: a pump, its interface, and tables before and after some operations.
use lingyunzhi_os_backend.Base.{String, [], ◌∷◌}
use lingyunzhi_os_backend.ProtoModels.{
  PropertyTypeDefinition, ObjectTypeDefinition, InterfaceTypeDefinition, OntologyRegistry,
  object_interface, property_type, object_type, interface_type, empty_registry,
}
use lingyunzhi_os_backend.Registry.Store.{Registries, empty_row}

abbrev pub pump_rid : String
pump_rid = "ri.obj.00000000-0000-4000-8000-000000000001"

abbrev pub asset_rid : String
asset_rid = "ri.iface.00000000-0000-4000-8000-000000000002"

abbrev pub serial : PropertyTypeDefinition
serial = record (property_type "ri.prop.00000000-0000-4000-8000-000000000003") {
  api_name = "serial_no";
  physical_column = "serial";
}

abbrev pub pump : ObjectTypeDefinition
pump = record (object_type pump_rid) {
  api_name = "pump";
  property_types = ("serial_no", serial) ∷ [];
}

-- The pump as an implementation of the interface below.
abbrev pub asset_pump : ObjectTypeDefinition
asset_pump = record pump { implements_interface_type_rids = asset_rid ∷ [] }

abbrev pub asset : InterfaceTypeDefinition
asset = record (interface_type asset_rid) { api_name = "asset"; category = object_interface }

abbrev pub with_pump : OntologyRegistry
with_pump = record empty_registry { object_types = (pump_rid, pump) ∷ [] }

abbrev pub with_asset : OntologyRegistry
with_asset = record empty_registry { interface_types = (asset_rid, asset) ∷ [] }

abbrev pub with_both : OntologyRegistry
with_both = record empty_registry {
  interface_types = (asset_rid, asset) ∷ [];
  object_types = (pump_rid, asset_pump) ∷ [];
}

-- The pump under another version label.
abbrev pub labelled : OntologyRegistry
labelled = record with_pump { version = "v1" }

abbrev pub stage : OntologyRegistry → Registries → Registries
stage reg t = record t { staging_row = record empty_row { payload = reg; version = 1 } }
