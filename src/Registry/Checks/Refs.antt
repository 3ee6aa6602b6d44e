-- ===== src/Registry/Checks/Refs.antt =====
-- onto_platform/registry/checks/refs.py
pub mod Shrink
use lingyunzhi_os_backend.Base.{
  ℕ, ◌+◌, String, Bool, true, false, not, ◌&&◌, List, [], ◌∷◌, ◌++◌, ◌<>◌, truthy, contains,
  for_each, only_if, if◌then◌else◌,
}
use lingyunzhi_os_backend.Dict.{Dict, keys}
use lingyunzhi_os_backend.ProtoModels.{
  PropertyTypeDefinition, InterfaceTypeDefinition, ObjectTypeDefinition, LinkTypeDefinition,
  ActionTypeDefinition, ActionParameter, OntologyRegistry,
}
use lingyunzhi_os_backend.Registry.Findings.{Finding, ValidatorCtx, error, does_not_exist, text}
use lingyunzhi_os_backend.Registry.Checks.Paths.{at_key, decimal}

-- The names by which `_missing` is told where to look.
pub data Kind : Type 0 where
  shared_property_types interface_types object_types link_types action_types : Kind

-- The dictionary `pools` of `_missing`.
pub record Pools : Type 0 where
  pub sp : List String
  pub ifaces : List String
  pub objs : List String
  pub links : List String
  pub actions : List String

abbrev pub pool : Pools → Kind → List String
pool p shared_property_types = p.sp
pool p interface_types = p.ifaces
pool p object_types = p.objs
pool p link_types = p.links
pool p action_types = p.actions

unfoldable pub resolves : String → Pools → List Kind → Bool
resolves rid p [] = false
resolves rid p (k ∷ ks) = if contains rid (pool p k) then true else resolves rid p ks

-- `_missing`
unfoldable pub missing : String → Pools → List Kind → Bool
missing rid p kinds = if not (truthy rid) then false else not (resolves rid p kinds)

-- `err`
unfoldable pub ref_not_found : String → String → String → Finding
ref_not_found where_ rid expected = record {
  severity = error;
  code = "REF_NOT_FOUND";
  path = where_;
  message = does_not_exist expected rid;
  details = ("rid", text rid) ∷ ("expected", text expected) ∷ [];
}

-- `if _missing(rid, …, (kind,)): yield err(path, rid, expected)`
unfoldable pub check_ref : Pools → Kind → String → String → String → List Finding
check_ref p kind expected where_ rid =
    only_if (missing rid p (kind ∷ [])) (ref_not_found where_ rid expected)

-- `{pt.rid for pt in property_types.values()}`
unfoldable pub local_rids : Dict PropertyTypeDefinition → List String
local_rids [] = []
local_rids ((k, pt) ∷ pts) = pt.rid ∷ local_rids pts

-- The test of one primary key.
unfoldable pub check_primary_key : Dict PropertyTypeDefinition → String → String → List Finding
check_primary_key property_types base pt_rid =
    only_if (truthy pt_rid && not (contains pt_rid (local_rids property_types)))
      (ref_not_found (base <> ".primary_key_property_type_rids") pt_rid "local PropertyType")

-- The test of the shared property type that a property type inherits from.
unfoldable pub check_inherits : Pools → String → String × PropertyTypeDefinition → List Finding
check_inherits p base (pt_key, pt) =
    check_ref p shared_property_types "SharedPropertyType"
      (base <> at_key ".property_types" pt_key <> ".inherit_from_shared_property_type_rid")
      pt.inherit_from_shared_property_type_rid

-- The loop over `object_types`.
unfoldable pub check_object : Pools → String × ObjectTypeDefinition → List Finding
check_object p (rid, obj) =
    let base = at_key "object_types" rid in
    for_each obj.implements_interface_type_rids
      (check_ref p interface_types "InterfaceType" (base <> ".implements_interface_type_rids"))
    ++ (for_each obj.primary_key_property_type_rids (check_primary_key obj.property_types base)
        ++ for_each obj.property_types (check_inherits p base))

-- The loop over `link_types`.
unfoldable pub check_link : Pools → String × LinkTypeDefinition → List Finding
check_link p (rid, lt) =
    let base = at_key "link_types" rid in
    check_ref p object_types "ObjectType" (base <> ".source_object_type_rid")
      lt.source_object_type_rid
    ++ (check_ref p interface_types "InterfaceType" (base <> ".source_interface_type_rid")
          lt.source_interface_type_rid
        ++ (check_ref p object_types "ObjectType" (base <> ".target_object_type_rid")
              lt.target_object_type_rid
            ++ (check_ref p interface_types "InterfaceType" (base <> ".target_interface_type_rid")
                  lt.target_interface_type_rid
                ++ (for_each lt.implements_interface_type_rids (
                      check_ref p interface_types "InterfaceType"
                        (base <> ".implements_interface_type_rids"))
                    ++ (for_each lt.primary_key_property_type_rids
                          (check_primary_key lt.property_types base)
                        ++ for_each lt.property_types (check_inherits p base))))))

-- The loop over `interface_types`.
unfoldable pub check_interface : Pools → String × InterfaceTypeDefinition → List Finding
check_interface p (rid, iface) =
    let base = at_key "interface_types" rid in
    for_each iface.extends_interface_type_rids
      (check_ref p interface_types "InterfaceType" (base <> ".extends_interface_type_rids"))
    ++ for_each iface.required_shared_property_type_rids (
        check_ref p shared_property_types "SharedPropertyType"
          (base <> ".required_shared_property_type_rids"))

-- The tests of one parameter of an action.
unfoldable pub check_parameter : Pools → String → ActionParameter → List Finding
check_parameter p base a =
    check_ref p object_types "ObjectType" (base <> ".derived_from_object_type_rid")
      a.derived_from_object_type_rid
    ++ (check_ref p link_types "LinkType" (base <> ".derived_from_link_type_rid")
          a.derived_from_link_type_rid
        ++ check_ref p interface_types "InterfaceType" (base <> ".derived_from_interface_type_rid")
            a.derived_from_interface_type_rid)

-- `for i, p in enumerate(action.parameters)`, from place `i`
unfoldable pub check_parameters : Pools → String → ℕ → List ActionParameter → List Finding
check_parameters p base i [] = []
check_parameters p base i (a ∷ as_) =
    check_parameter p (base <> at_key ".parameters" (decimal i)) a
    ++ check_parameters p base (i + 1) as_

-- The loop over `action_types`.
unfoldable pub check_action : Pools → String × ActionTypeDefinition → List Finding
check_action p (rid, action) = check_parameters p (at_key "action_types" rid) 0 action.parameters

unfoldable pub pools : OntologyRegistry → Pools
pools registry = record {
  sp = keys registry.shared_property_types;
  ifaces = keys registry.interface_types;
  objs = keys registry.object_types;
  links = keys registry.link_types;
  actions = keys registry.action_types;
}

-- The four loops, against given pools.
unfoldable pub check_refs_in : Pools → OntologyRegistry → List Finding
check_refs_in p registry =
    for_each registry.object_types (check_object p)
    ++ (for_each registry.link_types (check_link p)
        ++ (for_each registry.interface_types (check_interface p)
            ++ for_each registry.action_types (check_action p)))

unfoldable pub check_refs : OntologyRegistry → ValidatorCtx → List Finding
check_refs registry ctx = check_refs_in (pools registry) registry
