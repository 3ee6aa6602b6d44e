-- ===== src/Registry/RefsScan.antt =====
-- onto_platform/registry/refs_scan.py: who refers to an identifier.
use lingyunzhi_os_backend.Base.{
  ℕ, ◌+◌, String, List, [], ◌∷◌, ◌++◌, ◌<>◌, ◌==◌, contains, for_each, only_if,
}
use lingyunzhi_os_backend.ProtoModels.{
  PropertyTypeDefinition, InterfaceTypeDefinition, ObjectTypeDefinition, LinkTypeDefinition,
  ActionTypeDefinition, ActionParameter, OntologyRegistry,
}
use lingyunzhi_os_backend.Registry.Checks.Paths.{at_key, decimal}

pub record Referrer : Type 0 where
  pub rid : String
  pub kind : String
  pub field : String
  pub path : String

-- The argument of `_add`, whose path is `f"{base}.{field}"`.
abbrev pub referrer : String → String → String → String → Referrer
referrer r k f base = record { rid = r; kind = k; field = f; path = base <> "." <> f }

-- The test of the shared property type that a property type inherits from.
unfoldable pub refs_inherit :
    String → String → String → String × PropertyTypeDefinition → List Referrer
refs_inherit target rid base (k, pt) =
    only_if (pt.inherit_from_shared_property_type_rid == target) (
      referrer rid "property_type" "inherit_from_shared_property_type_rid"
        (base <> at_key ".property_types" k))

-- The property types of an object type: their own identifiers count too.
unfoldable pub refs_object_property :
    String → String → String × PropertyTypeDefinition → List Referrer
refs_object_property target rid (k, pt) =
    refs_inherit target rid (at_key "object_types" rid) (k, pt)
    ++ only_if (pt.rid == target) (
        referrer rid "property_type" "rid"
          (at_key "object_types" rid <> at_key ".property_types" k))

unfoldable pub refs_object : String → String × ObjectTypeDefinition → List Referrer
refs_object target (rid, obj) =
    only_if (contains target obj.implements_interface_type_rids)
      (referrer rid "object_type" "implements_interface_type_rids" (at_key "object_types" rid))
    ++ for_each obj.property_types (refs_object_property target rid)

unfoldable pub refs_link : String → String × LinkTypeDefinition → List Referrer
refs_link target (rid, lt) =
    let base = at_key "link_types" rid in
    only_if (lt.source_object_type_rid == target)
      (referrer rid "link_type" "source_object_type_rid" base)
    ++ (only_if (lt.source_interface_type_rid == target)
          (referrer rid "link_type" "source_interface_type_rid" base)
        ++ (only_if (lt.target_object_type_rid == target)
              (referrer rid "link_type" "target_object_type_rid" base)
            ++ (only_if (lt.target_interface_type_rid == target)
                  (referrer rid "link_type" "target_interface_type_rid" base)
                ++ (only_if (contains target lt.implements_interface_type_rids)
                      (referrer rid "link_type" "implements_interface_type_rids" base)
                    ++ for_each lt.property_types (refs_inherit target rid base)))))

unfoldable pub refs_interface : String → String × InterfaceTypeDefinition → List Referrer
refs_interface target (rid, iface) =
    let base = at_key "interface_types" rid in
    only_if (contains target iface.extends_interface_type_rids)
      (referrer rid "interface_type" "extends_interface_type_rids" base)
    ++ only_if (contains target iface.required_shared_property_type_rids)
        (referrer rid "interface_type" "required_shared_property_type_rids" base)

unfoldable pub refs_parameter : String → String → String → ActionParameter → List Referrer
refs_parameter target rid base p =
    only_if (p.derived_from_object_type_rid == target)
      (referrer rid "action_type" "derived_from_object_type_rid" base)
    ++ (only_if (p.derived_from_link_type_rid == target)
          (referrer rid "action_type" "derived_from_link_type_rid" base)
        ++ only_if (p.derived_from_interface_type_rid == target)
            (referrer rid "action_type" "derived_from_interface_type_rid" base))

-- `for i, p in enumerate(action.parameters)`, from place `i`
unfoldable pub refs_parameters : String → String → ℕ → List ActionParameter → List Referrer
refs_parameters target rid i [] = []
refs_parameters target rid i (p ∷ ps) =
    refs_parameter target rid (at_key "action_types" rid <> at_key ".parameters" (decimal i)) p
    ++ refs_parameters target rid (i + 1) ps

unfoldable pub refs_action : String → String × ActionTypeDefinition → List Referrer
refs_action target (rid, action) = refs_parameters target rid 0 action.parameters

unfoldable pub find_referrers : OntologyRegistry → String → List Referrer
find_referrers registry target =
    for_each registry.object_types (refs_object target)
    ++ (for_each registry.link_types (refs_link target)
        ++ (for_each registry.interface_types (refs_interface target)
            ++ for_each registry.action_types (refs_action target)))
