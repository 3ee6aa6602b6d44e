-- ===== src/Registry/Checks/Structural.antt =====
-- onto_platform/registry/checks/structural.py: the two regular expressions as recognisers over
-- code points. Python's `$` also matches before a newline at the end.
pub mod Patterns
use lingyunzhi_os_backend.Base.{
  String, not, List, [], ◌∷◌, ◌++◌, ◌<>◌, Option, none, some, ◌==◌, truthy, for_each, only_if,
  if◌then◌else◌,
}
use lingyunzhi_os_backend.Dict.{Dict}
use lingyunzhi_os_backend.ProtoModels.{PropertyTypeDefinition, OntologyRegistry}
use lingyunzhi_os_backend.Registry.Findings.{
  Finding, ValidatorCtx, error, invalid_rid, rid_prefix, invalid_api_name,
}
use lingyunzhi_os_backend.Registry.Checks.Paths.{at_key}
use Patterns.{match_rid, match_api_name}

-- The findings of `_check_rid`, on the kind that `_RID_RE` captured.
unfoldable pub check_rid_kind : String → String → String → Option String → List Finding
check_rid_kind rid expected_prefix where_ none =
    record {
      severity = error;
      code = "RID_FORMAT";
      path = where_;
      message = invalid_rid expected_prefix rid;
      details = [];
    }
    ∷ []
check_rid_kind rid expected_prefix where_ (some kind) =
    only_if (not (kind == expected_prefix)) (record {
      severity = error;
      code = "RID_FORMAT";
      path = where_;
      message = rid_prefix kind expected_prefix;
      details = [];
    })

-- `_check_rid`
unfoldable pub check_rid : String → String → String → List Finding
check_rid rid expected_prefix where_ = check_rid_kind rid expected_prefix where_ (match_rid rid)

-- `_check_api_name`
unfoldable pub check_api_name : String → String → List Finding
check_api_name api_name where_ = only_if (not (match_api_name api_name)) (record {
  severity = error;
  code = "API_NAME_FORMAT";
  path = where_;
  message = invalid_api_name api_name;
  details = [];
})

-- The tests of an identifier and of a name that is not empty, for entities and property types.
unfoldable pub check_names : String → String → String → String → List Finding
check_names rid api_name expected_prefix base_path =
    check_rid rid expected_prefix (base_path <> ".rid")
    ++ (if truthy api_name then check_api_name api_name (base_path <> ".api_name") else [])

-- The property types inside an object type or a link type.
unfoldable pub check_property_types : Dict PropertyTypeDefinition → String → List Finding
check_property_types property_types base_path = for_each property_types (λ (pt_key, pt).
    check_names pt.rid pt.api_name "prop" (base_path <> at_key ".property_types" pt_key))

-- The loop over `_KIND_PREFIX`, written out: only object types and link types have property types.
unfoldable pub check_structural : OntologyRegistry → ValidatorCtx → List Finding
check_structural registry ctx =
    for_each registry.shared_property_types (λ (rid, defn).
      check_names defn.rid defn.api_name "shprop" (at_key "shared_property_types" rid))
    ++ (for_each registry.interface_types
          (λ (rid, defn). check_names defn.rid defn.api_name "iface" (at_key "interface_types" rid))
        ++ (for_each registry.object_types (λ (rid, defn).
              check_names defn.rid defn.api_name "obj" (at_key "object_types" rid)
              ++ check_property_types defn.property_types (at_key "object_types" rid))
            ++ (for_each registry.link_types (λ (rid, defn).
                  check_names defn.rid defn.api_name "link" (at_key "link_types" rid)
                  ++ check_property_types defn.property_types (at_key "link_types" rid))
                ++ for_each registry.action_types (λ (rid, defn).
                  check_names defn.rid defn.api_name "action" (at_key "action_types" rid)))))
