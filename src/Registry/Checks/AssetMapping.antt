-- ===== src/Registry/Checks/AssetMapping.antt =====
-- onto_platform/registry/checks/asset_mapping.py
use lingyunzhi_os_backend.Base.{
  String, Bool, not, ◌&&◌, ◌||◌, List, [], ◌∷◌, ◌++◌, ◌<>◌, truthy, contains, for_each, only_if,
  if◌then◌else◌,
}
use lingyunzhi_os_backend.ProtoModels.{AssetMapping, OntologyRegistry}
use lingyunzhi_os_backend.Registry.Findings.{
  Finding, ValidatorCtx, warning, error, no_asset_mapping, connection_not_registered, text,
}
use lingyunzhi_os_backend.Registry.Checks.Paths.{at_key}

-- `_is_empty`
unfoldable pub is_empty : AssetMapping → Bool
is_empty am =
    not (truthy am.read_connection_id || truthy am.read_asset_path || am.writeback_enabled)

-- `_check`
unfoldable pub check_mapping : AssetMapping → String → List String → List Finding
check_mapping am base conn_ids =
    if is_empty am
    then record {
      severity = warning;
      code = "ASSET_MAPPING_EMPTY";
      path = base;
      message = no_asset_mapping;
      details = [];
    }
      ∷ []
    else only_if (truthy am.read_connection_id && not (contains am.read_connection_id conn_ids))
        (record {
          severity = error;
          code = "ASSET_MAPPING_CONNECTION_NOT_FOUND";
          path = base <> ".read_connection_id";
          message = connection_not_registered am.read_connection_id;
          details = ("connection_id", text am.read_connection_id) ∷ [];
        })

unfoldable pub check_asset_mapping : OntologyRegistry → ValidatorCtx → List Finding
check_asset_mapping registry ctx =
    for_each registry.object_types (λ (rid, obj).
      check_mapping obj.asset_mapping (at_key "object_types" rid <> ".asset_mapping")
        ctx.connection_ids)
    ++ for_each registry.link_types (λ (rid, lt).
      check_mapping lt.asset_mapping (at_key "link_types" rid <> ".asset_mapping")
        ctx.connection_ids)
