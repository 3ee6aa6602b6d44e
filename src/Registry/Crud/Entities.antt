-- ===== src/Registry/Crud/Entities.antt =====
-- The five kinds of entity together: one name for the five puts, deletions and lookups of
-- onto_platform/registry/crud.py.
use lingyunzhi_os_backend.Base.{String, Bool, true, false, List, Option, none, some}
use lingyunzhi_os_backend.Dict.{lookup}
use lingyunzhi_os_backend.ProtoModels.{
  SharedPropertyTypeDefinition, InterfaceTypeDefinition, ObjectTypeDefinition, LinkTypeDefinition,
  ActionTypeDefinition, OntologyRegistry,
}
use lingyunzhi_os_backend.Registry.Checks.Refs.{
  Kind, shared_property_types, interface_types, object_types, link_types, action_types,
}
use lingyunzhi_os_backend.Registry.Crud.{
  put_shared_property_type, put_interface_type, put_object_type, put_link_type, put_action_type,
  delete_shared_property_type, delete_interface_type, delete_object_type, delete_link_type,
  delete_action_type,
}
use lingyunzhi_os_backend.Registry.Crud.Errors.{Crud}

pub data Entity : Type 0 where
  shared_property_type : SharedPropertyTypeDefinition → Entity
  interface_type : InterfaceTypeDefinition → Entity
  object_type : ObjectTypeDefinition → Entity
  link_type : LinkTypeDefinition → Entity
  action_type : ActionTypeDefinition → Entity

abbrev pub kind_of : Entity → Kind
kind_of (shared_property_type d) = shared_property_types
kind_of (interface_type d) = interface_types
kind_of (object_type d) = object_types
kind_of (link_type d) = link_types
kind_of (action_type d) = action_types

abbrev pub rid_of : Entity → String
rid_of (shared_property_type d) = d.rid
rid_of (interface_type d) = d.rid
rid_of (object_type d) = d.rid
rid_of (link_type d) = d.rid
rid_of (action_type d) = d.rid

abbrev pub same_kind : Kind → Kind → Bool
same_kind shared_property_types shared_property_types = true
same_kind interface_types interface_types = true
same_kind object_types object_types = true
same_kind link_types link_types = true
same_kind action_types action_types = true
same_kind _ _ = false

abbrev pub put : OntologyRegistry → Entity → List String → Crud OntologyRegistry
put reg (shared_property_type d) = put_shared_property_type reg d
put reg (interface_type d) = put_interface_type reg d
put reg (object_type d) = put_object_type reg d
put reg (link_type d) = put_link_type reg d
put reg (action_type d) = put_action_type reg d

abbrev pub delete : OntologyRegistry → Kind → String → Crud OntologyRegistry
delete reg shared_property_types = delete_shared_property_type reg
delete reg interface_types = delete_interface_type reg
delete reg object_types = delete_object_type reg
delete reg link_types = delete_link_type reg
delete reg action_types = delete_action_type reg

abbrev pub wrap {ℓ} : {A : Type ℓ} → (A → Entity) → Option A → Option Entity
wrap c none = none
wrap c (some a) = some (c a)

-- What the registry holds under an identifier of a kind.
abbrev pub entry : OntologyRegistry → Kind → String → Option Entity
entry reg shared_property_types rid =
    wrap shared_property_type (lookup rid reg.shared_property_types)
entry reg interface_types rid = wrap interface_type (lookup rid reg.interface_types)
entry reg object_types rid = wrap object_type (lookup rid reg.object_types)
entry reg link_types rid = wrap link_type (lookup rid reg.link_types)
entry reg action_types rid = wrap action_type (lookup rid reg.action_types)
