-- ===== src/Registry/Crud.antt =====
-- onto_platform/registry/crud.py
pub mod Errors
pub mod Validated
pub mod Entities
pub mod Puts
pub mod Deletes
use lingyunzhi_os_backend.Base.{
  String, List, [], ◌∷◌, Option, none, some, Result, ok, err, ◌>>=◌, if◌then◌else◌,
}
use lingyunzhi_os_backend.Dict.{Dict, lookup, has, insert, erase}
use lingyunzhi_os_backend.ProtoModels.{
  SharedPropertyTypeDefinition, InterfaceTypeDefinition, ObjectTypeDefinition, LinkTypeDefinition,
  ActionTypeDefinition, AssetMapping, OntologyRegistry,
}
use lingyunzhi_os_backend.Registry.Findings.{Finding, errors}
use lingyunzhi_os_backend.Registry.Validator.{validate}
use lingyunzhi_os_backend.Registry.RefsScan.{Referrer, find_referrers}
use Errors.{CrudError, validation_failed, referenced, key_error, Crud}

-- `_replace_map`
unfoldable pub replace_map {ℓ} : {T : Type ℓ} → Dict T → String → Option T → Dict T
replace_map src rid none = erase rid src
replace_map src rid (some defn) = insert rid defn src

unfoldable pub raise_if_any : OntologyRegistry → List Finding → Crud OntologyRegistry
raise_if_any candidate [] = ok candidate
raise_if_any candidate (f ∷ fs) = err (validation_failed (f ∷ fs))

-- `_validate_or_raise(candidate, connection_ids); return candidate`
unfoldable pub validated : OntologyRegistry → List String → Crud OntologyRegistry
validated candidate connection_ids =
    raise_if_any candidate (errors (validate candidate connection_ids))

unfoldable pub refuse_if_any : String → OntologyRegistry → List Referrer → Crud OntologyRegistry
refuse_if_any target_rid result [] = ok result
refuse_if_any target_rid result (r ∷ rs) = err (referenced target_rid (r ∷ rs))

-- `_refuse_if_referenced(reg, target_rid); return result`
unfoldable pub unless_referenced :
    OntologyRegistry → String → OntologyRegistry → Crud OntologyRegistry
unless_referenced reg target_rid result =
    refuse_if_any target_rid result (find_referrers reg target_rid)

unfoldable pub put_shared_property_type :
    OntologyRegistry → SharedPropertyTypeDefinition → List String → Crud OntologyRegistry
put_shared_property_type reg defn connection_ids =
    validated
      (record reg {
        shared_property_types = replace_map reg.shared_property_types defn.rid (some defn);
      })
      connection_ids

unfoldable pub delete_shared_property_type : OntologyRegistry → String → Crud OntologyRegistry
delete_shared_property_type reg rid =
    unless_referenced reg rid
      (record reg { shared_property_types = replace_map reg.shared_property_types rid none })

unfoldable pub put_interface_type :
    OntologyRegistry → InterfaceTypeDefinition → List String → Crud OntologyRegistry
put_interface_type reg defn connection_ids =
    validated
      (record reg { interface_types = replace_map reg.interface_types defn.rid (some defn) })
      connection_ids

unfoldable pub delete_interface_type : OntologyRegistry → String → Crud OntologyRegistry
delete_interface_type reg rid =
    unless_referenced reg rid
      (record reg { interface_types = replace_map reg.interface_types rid none })

unfoldable pub put_object_type :
    OntologyRegistry → ObjectTypeDefinition → List String → Crud OntologyRegistry
put_object_type reg defn connection_ids =
    validated (record reg { object_types = replace_map reg.object_types defn.rid (some defn) })
      connection_ids

unfoldable pub delete_object_type : OntologyRegistry → String → Crud OntologyRegistry
delete_object_type reg rid =
    unless_referenced reg rid (record reg { object_types = replace_map reg.object_types rid none })

unfoldable pub put_link_type :
    OntologyRegistry → LinkTypeDefinition → List String → Crud OntologyRegistry
put_link_type reg defn connection_ids =
    validated (record reg { link_types = replace_map reg.link_types defn.rid (some defn) })
      connection_ids

unfoldable pub delete_link_type : OntologyRegistry → String → Crud OntologyRegistry
delete_link_type reg rid =
    unless_referenced reg rid (record reg { link_types = replace_map reg.link_types rid none })

unfoldable pub put_action_type :
    OntologyRegistry → ActionTypeDefinition → List String → Crud OntologyRegistry
put_action_type reg defn connection_ids =
    validated (record reg { action_types = replace_map reg.action_types defn.rid (some defn) })
      connection_ids

unfoldable pub delete_action_type : OntologyRegistry → String → Crud OntologyRegistry
delete_action_type reg rid =
    unless_referenced reg rid (record reg { action_types = replace_map reg.action_types rid none })

abbrev bind_object : AssetMapping → ObjectTypeDefinition → ObjectTypeDefinition
bind_object mapping obj = record obj { asset_mapping = mapping }

abbrev bind_link : AssetMapping → LinkTypeDefinition → LinkTypeDefinition
bind_link mapping lt = record lt { asset_mapping = mapping }

-- The registry that `set_asset_mapping` validates, by what was found under the identifier.
unfoldable pub bound :
    OntologyRegistry
    → String
    → AssetMapping
    → Option ObjectTypeDefinition
    → Option LinkTypeDefinition
    → Crud OntologyRegistry
bound reg rid mapping (some obj) lt = ok (record reg {
  object_types = replace_map reg.object_types rid (some (bind_object mapping obj));
})
bound reg rid mapping none (some lt) =
    ok (record reg { link_types = replace_map reg.link_types rid (some (bind_link mapping lt)) })
bound reg rid mapping none none = err (key_error rid)

unfoldable pub set_asset_mapping :
    OntologyRegistry → String → AssetMapping → List String → Crud OntologyRegistry
set_asset_mapping reg target_rid mapping connection_ids =
    bound reg target_rid mapping (lookup target_rid reg.object_types)
      (lookup target_rid reg.link_types)
    >>= λ candidate. validated candidate connection_ids
