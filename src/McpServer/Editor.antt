-- ===== src/McpServer/Editor.antt =====
-- The tools of onto_platform/mcp_tools_editor.py.
use lingyunzhi_os_backend.Base.{ℕ, String, List, Option, none, some, Result, ok, err, ◌>>=◌}
use lingyunzhi_os_backend.ProtoModels.{OntologyRegistry}
use lingyunzhi_os_backend.Registry.Validator.{validate}
use lingyunzhi_os_backend.Registry.Crud.Errors.{Crud}
use lingyunzhi_os_backend.Registry.Crud.{set_asset_mapping}
use lingyunzhi_os_backend.Registry.Imports.{import_into_registry}
use lingyunzhi_os_backend.Registry.Store.{staging, Registries, StaleVersion, load, save}
use lingyunzhi_os_backend.Registry.Lifecycle.{Lifecycle, stale_version}
use lingyunzhi_os_backend.Connections.Store.{connection_ids}
use lingyunzhi_os_backend.Access.{TokenLookupResult}
use lingyunzhi_os_backend.McpServer.{Failure, Database, Handled}
use lingyunzhi_os_backend.McpServer.Calls.{
  ToolArguments, ToolAnswer, findings, staging_version, Context, given, from_lifecycle,
  from_crud_error, only_answers, writes,
}

-- `_conn_ids`
abbrev pub conn_ids : Database → List String
conn_ids db = connection_ids db.connections

-- `expected_version if expected_version is not None else snap.version`
abbrev pub expected_or_current : Option ℕ → ℕ → ℕ
expected_or_current none version = version
expected_or_current (some v) version = v

-- The table and the version that a save leaves.
unfoldable pub version_saved :
    Database → Result StaleVersion (Registries × ℕ) → Lifecycle (Database × ToolAnswer)
version_saved db (ok (t, v)) = ok (record db { registries = t }, staging_version v)
version_saved db (err e) = err (stale_version e)

-- `_save`
unfoldable pub save_staging :
    ℕ
    → TokenLookupResult
    → OntologyRegistry
    → Option ℕ
    → Database
    → Lifecycle (Database × ToolAnswer)
save_staging now principal new_reg expected_version db =
    let snap = load db.registries staging in
    version_saved db (
      save now db.registries staging new_reg
        (some (expected_or_current expected_version snap.version)) (some principal.label) none)

module _ {Raised : Type 0} (c : Context Raised) where
  unfoldable pub validate_staging :
      TokenLookupResult → ToolArguments Raised → Database → Handled Raised ToolAnswer
  validate_staging principal args db = only_answers db (
      given args.binding >>= λ _.
      ok (findings (validate (load db.registries staging).registry (conn_ids db))))

  -- What every tool does with the registry that its edit makes.
  unfoldable pub edited :
      TokenLookupResult
      → ToolArguments Raised
      → Database
      → Result (Failure Raised) OntologyRegistry
      → Handled Raised ToolAnswer
  edited principal args db r = writes db (
      r >>= λ new_reg.
      from_lifecycle (save_staging c.now principal new_reg args.expected_version db))

  -- `_put_factory`
  unfoldable pub put_handler :
      {D : Type 0}
      → (OntologyRegistry → D → List String → Crud OntologyRegistry)
      → (ToolArguments Raised → Result Raised D)
      → TokenLookupResult
      → ToolArguments Raised
      → Database
      → Handled Raised ToolAnswer
  put_handler putter definition principal args db = edited principal args db (
      given args.binding >>= λ _. given (definition args) >>= λ defn.
      from_crud_error (putter (load db.registries staging).registry defn (conn_ids db)))

  -- `_del_factory`
  unfoldable pub delete_handler :
      (OntologyRegistry → String → Crud OntologyRegistry)
      → TokenLookupResult
      → ToolArguments Raised
      → Database
      → Handled Raised ToolAnswer
  delete_handler deleter principal args db = edited principal args db (
      given args.binding >>= λ _.
      from_crud_error (deleter (load db.registries staging).registry args.rid))

  unfoldable pub import_full :
      TokenLookupResult → ToolArguments Raised → Database → Handled Raised ToolAnswer
  import_full principal args db = edited principal args db (
      given args.binding >>= λ _. given args.definitions.registry >>= λ incoming.
      given args.definitions.mode >>= λ mode.
      from_crud_error
        (import_into_registry (load db.registries staging).registry incoming mode (conn_ids db)))

  unfoldable pub asset_mapping_handler :
      TokenLookupResult → ToolArguments Raised → Database → Handled Raised ToolAnswer
  asset_mapping_handler principal args db = edited principal args db (
      given args.binding >>= λ _. given args.definitions.asset_mapping >>= λ am.
      from_crud_error
        (set_asset_mapping (load db.registries staging).registry args.rid am (conn_ids db)))
