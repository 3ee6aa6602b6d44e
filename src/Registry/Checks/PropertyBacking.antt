-- ===== src/Registry/Checks/PropertyBacking.antt =====
-- onto_platform/registry/checks/property_backing.py
use lingyunzhi_os_backend.Base.{
  String, not, ◌&&◌, List, [], ◌∷◌, ◌++◌, ◌<>◌, Option, none, some, truthy, for_each, only_if,
  if◌then◌else◌,
}
use lingyunzhi_os_backend.Dict.{Dict, lookup}
use lingyunzhi_os_backend.ProtoModels.{
  PropertyTypeDefinition, SharedPropertyTypeDefinition, OntologyRegistry, same_data_type,
}
use lingyunzhi_os_backend.Registry.Findings.{
  Finding, ValidatorCtx, error, backing_missing, backing_both, data_type_mismatch, data_type,
}
use lingyunzhi_os_backend.Registry.Checks.Paths.{at_key}

-- The test of the two columns.
unfoldable pub check_columns : PropertyTypeDefinition → String → List Finding
check_columns pt base =
    let has_physical = truthy pt.physical_column in
    let has_virtual = truthy pt.virtual_expression in
    if not has_physical && not has_virtual
    then record {
      severity = error;
      code = "PROPERTY_BACKING_MISSING";
      path = base;
      message = backing_missing;
      details = [];
    }
      ∷ []
    else only_if (has_physical && has_virtual) (record {
      severity = error;
      code = "PROPERTY_BACKING_BOTH_SET";
      path = base;
      message = backing_both;
      details = [];
    })

-- The test of the inherited data type, on the shared property type that was found.
unfoldable pub check_inherited :
    PropertyTypeDefinition → String → Option SharedPropertyTypeDefinition → List Finding
check_inherited pt base none = []
check_inherited pt base (some sp) =
    only_if (not (same_data_type pt.data_type sp.data_type)) (record {
      severity = error;
      code = "INHERITED_DATA_TYPE_MISMATCH";
      path = base <> ".data_type";
      message =
          data_type_mismatch pt.data_type pt.inherit_from_shared_property_type_rid sp.data_type;
      details = ("local", data_type pt.data_type) ∷ ("shared", data_type sp.data_type) ∷ [];
    })

-- `_check_one`
unfoldable pub check_one :
    PropertyTypeDefinition → String → Dict SharedPropertyTypeDefinition → List Finding
check_one pt base sps =
    check_columns pt base
    ++ (if truthy pt.inherit_from_shared_property_type_rid
        then check_inherited pt base (lookup pt.inherit_from_shared_property_type_rid sps)
        else [])

unfoldable pub check_property_backing : OntologyRegistry → ValidatorCtx → List Finding
check_property_backing registry ctx =
    let sps = registry.shared_property_types in
    for_each registry.object_types (λ (rid, obj).
      for_each obj.property_types
        (λ (k, pt). check_one pt (at_key "object_types" rid <> at_key ".property_types" k) sps))
    ++ for_each registry.link_types (λ (rid, lt).
      for_each lt.property_types
        (λ (k, pt). check_one pt (at_key "link_types" rid <> at_key ".property_types" k) sps))
