-- ===== src/Registry/Validator.antt =====
-- `validate` and `has_errors` of onto_platform/registry/validator.py, with the checkers in the
-- order in which onto_platform/registry/checks/__init__.py registers them.
use lingyunzhi_os_backend.Base.{String, Bool, false, ◌||◌, List, [], ◌∷◌, for_each}
use lingyunzhi_os_backend.ProtoModels.{OntologyRegistry}
use lingyunzhi_os_backend.Registry.Findings.{Finding, ValidatorCtx, is_error}
use lingyunzhi_os_backend.Registry.Checks.Structural.{check_structural}
use lingyunzhi_os_backend.Registry.Checks.Refs.{check_refs}
use lingyunzhi_os_backend.Registry.Checks.InterfaceCategory.{check_interface_category}
use lingyunzhi_os_backend.Registry.Checks.PropertyBacking.{check_property_backing}
use lingyunzhi_os_backend.Registry.Checks.AssetMapping.{check_asset_mapping}
use lingyunzhi_os_backend.Registry.Checks.CrossProperty.{check_cross_property}

-- `_CHECKERS`
unfoldable pub checkers : List (OntologyRegistry → ValidatorCtx → List Finding)
checkers =
    check_structural ∷ check_refs ∷ check_interface_category ∷ check_property_backing
    ∷ check_asset_mapping ∷ check_cross_property ∷ []

unfoldable pub validate : OntologyRegistry → List String → List Finding
validate registry connection_ids =
    for_each checkers (λ fn. fn registry (record { connection_ids = connection_ids }))

unfoldable pub has_errors : List Finding → Bool
has_errors [] = false
has_errors (f ∷ fs) = is_error f || has_errors fs
