-- ===== src/Registry/Checks/InterfaceCategory.antt =====
-- onto_platform/registry/checks/interface_category.py: the shape and the category of interfaces,
-- and the search for cycles of `extends`.
use lingyunzhi_os_backend.Registry.Checks.Cycles.{check_cycles}
use lingyunzhi_os_backend.Base.{
  String, not, List, [], ◌∷◌, ◌++◌, ◌<>◌, Option, none, some, for_each, only_if,
}
use lingyunzhi_os_backend.Dict.{Dict, lookup}
use lingyunzhi_os_backend.ProtoModels.{
  InterfaceTypeDefinition, InterfaceCategory, interface_category_invalid, object_interface,
  link_interface, ObjectLinkRequirement, LinkObjectConstraint, OntologyRegistry, same_category,
}
use lingyunzhi_os_backend.Registry.Findings.{
  Finding, ValidatorCtx, error, no_object_constraint, no_link_requirements, invalid_category,
  cannot_extend,
}
use lingyunzhi_os_backend.Registry.Checks.Paths.{at_key}

unfoldable pub mismatch_constraint : String → Option LinkObjectConstraint → List Finding
mismatch_constraint base none = []
mismatch_constraint base (some c) =
    record {
      severity = error;
      code = "INTERFACE_CATEGORY_MISMATCH";
      path = base <> ".object_constraint";
      message = no_object_constraint;
      details = [];
    }
    ∷ []

unfoldable pub mismatch_requirements : String → List ObjectLinkRequirement → List Finding
mismatch_requirements base [] = []
mismatch_requirements base (r ∷ rs) =
    record {
      severity = error;
      code = "INTERFACE_CATEGORY_MISMATCH";
      path = base <> ".link_requirements";
      message = no_link_requirements;
      details = [];
    }
    ∷ []

-- Rule 1, by the category.
unfoldable pub check_shape : InterfaceCategory → String → InterfaceTypeDefinition → List Finding
check_shape object_interface base iface = mismatch_constraint base iface.object_constraint
check_shape link_interface base iface = mismatch_requirements base iface.link_requirements
check_shape interface_category_invalid base iface =
    record {
      severity = error;
      code = "INTERFACE_CATEGORY_INVALID";
      path = base <> ".category";
      message = invalid_category interface_category_invalid;
      details = [];
    }
    ∷ []

-- Rule 2 for one parent, as `ifaces.get` found it.
unfoldable pub check_parent :
    String → InterfaceCategory → String → Option InterfaceTypeDefinition → List Finding
check_parent base category parent_rid none = []
check_parent base category parent_rid (some parent) =
    only_if (not (same_category parent.category category)) (record {
      severity = error;
      code = "INTERFACE_EXTENDS_CATEGORY_MISMATCH";
      path = base <> ".extends_interface_type_rids";
      message = cannot_extend parent_rid parent.category category;
      details = [];
    })

-- Rules 1 and 2 for one interface.
unfoldable pub check_category :
    Dict InterfaceTypeDefinition → String × InterfaceTypeDefinition → List Finding
check_category ifaces (rid, iface) =
    let base = at_key "interface_types" rid in
    check_shape iface.category base iface
    ++ for_each iface.extends_interface_type_rids
        (λ parent_rid. check_parent base iface.category parent_rid (lookup parent_rid ifaces))

unfoldable pub check_interface_category : OntologyRegistry → ValidatorCtx → List Finding
check_interface_category registry ctx =
    for_each registry.interface_types (check_category registry.interface_types)
    ++ check_cycles registry.interface_types
