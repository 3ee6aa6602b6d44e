-- ===== src/McpServer/Calls.antt =====
-- What the tools of onto_platform/mcp_tools_read.py, mcp_tools_editor.py and mcp_tools_admin.py are
-- called with, what they return, and what they ask of the outside.
use lingyunzhi_os_backend.Base.{ℕ, String, Bool, List, Option, Result, ok, err}
use lingyunzhi_os_backend.ProtoModels.{
  OntologyRegistry, LifecycleStatus, DataType, Sensitivity, MaskingStrategy,
}
use lingyunzhi_os_backend.Registry.Findings.{Finding}
use lingyunzhi_os_backend.Registry.Crud.Entities.{Entity}
use lingyunzhi_os_backend.Registry.Crud.Errors.{Crud}
use lingyunzhi_os_backend.Registry.Store.{Env, Registries}
use lingyunzhi_os_backend.Registry.Lifecycle.{Await, Lifecycle, crud_error}
use lingyunzhi_os_backend.Connections.Store.{ConnectionKind, Connection, ConnectionError}
use lingyunzhi_os_backend.Connections.DataQuery.{QueryResult}
use lingyunzhi_os_backend.Ingestion.Tools.{Arguments}
use lingyunzhi_os_backend.Access.{Scope, TokenRow, Hasher}
use lingyunzhi_os_backend.McpServer.{
  Failure, registry_error, connection_error, raised, Database, Handled,
}

-- The keyword arguments: values, or what reading them raises. `binding` is the exception of a call
-- whose keywords do not fit the handler's; `definitions` has what Pydantic makes of the objects; an
-- identifier stands as the text that is given and as the text of the UUID that it is read as.
pub record ToolArguments (Raised : Type 0) : Type 0 where
  pub binding : Result Raised (Unit {0})
  pub definitions : Arguments Raised
  pub expected_version : Option ℕ
  pub env : Result Raised Env
  pub filter : Option String
  pub rid : String
  pub api_name : String
  pub kind : Option String
  pub commit_message : String
  pub scope : Result (Failure Raised) Scope
  pub label : String
  pub token_uuid : Result Raised String
  pub connection_kind : Result Raised ConnectionKind
  pub dsn : String
  pub connection_id : String
  pub connection_uuid : Result Raised String
  pub sql : String
  pub max_rows : Option ℕ
  pub timeout_ms : Option ℕ

-- An entry of a listing.
pub record Compact : Type 0 where
  pub rid : String
  pub api_name : String
  pub display_name : String
  pub lifecycle_status : LifecycleStatus

pub record BoundColumn : Type 0 where
  pub api_name : String
  pub physical_column : String
  pub data_type : DataType
  pub sensitivity : Sensitivity
  pub masking_strategy : MaskingStrategy
  pub property_rid : String

pub record BoundAsset : Type 0 where
  pub rid : String
  pub connection_id : String
  pub asset_path : String
  pub columns : List BoundColumn

pub data ToolAnswer : Type 0 where
  identity : String → Scope → ToolAnswer
  whole_registry : OntologyRegistry → ToolAnswer
  items : List Compact → ToolAnswer
  entity : Entity → ToolAnswer
  bound_asset : BoundAsset → ToolAnswer
  query_answer : QueryResult String → ToolAnswer
  findings : List Finding → ToolAnswer
  staging_version : ℕ → ToolAnswer
  done : ToolAnswer
  token_minted : List ℕ → String → ToolAnswer
  token_revoked : Bool → ToolAnswer
  token_list : List TokenRow → ToolAnswer
  connection : Connection → ToolAnswer
  connection_deleted : ToolAnswer
  connection_list : List Connection → ToolAnswer

-- The time, the random and generated values, the settings, and what libraries and the outer
-- databases do.
pub record Context (Raised : Type 0) : Type 0 where
  pub now : ℕ
  -- what others commit to the registries while an operation of registry/lifecycle.py waits
  pub meanwhile : Await → Registries → Registries
  pub hasher : Hasher
  pub new_id : String
  pub salt : ℕ
  pub plaintext : List ℕ
  pub probe : ConnectionKind → String → Option Raised
  pub encrypt : String → String
  -- `needle in field.lower()` for `needle = filter.lower()`
  pub is_within : String → String → Bool
  -- `ORDER BY label` and the order of `list_tokens`
  pub by_label : List Connection → List Connection
  pub by_creation : List TokenRow → List TokenRow
  -- `query_sql` of connections/data_query.py over the connection: the registry, the SQL, the most
  -- rows and the longest time
  pub query :
      OntologyRegistry → Connection → String → ℕ → ℕ → Result (Failure Raised) (QueryResult String)
  -- the `ValueError` of `mcp_delete_connection`, which names the entry that was found
  pub in_use : Raised
  pub query_default_max_rows : ℕ
  pub query_max_rows_cap : ℕ
  pub query_default_timeout_ms : ℕ
  pub query_timeout_ms_cap : ℕ

module _ {Raised : Type 0} where
  -- A step that may raise, in terms of the exceptions of the server.
  unfoldable pub given {ℓ} : {A : Type ℓ} → Result Raised A → Result (Failure Raised) A
  given (ok a) = ok a
  given (err e) = err (raised e)

  unfoldable pub from_lifecycle : {A : Type 0} → Lifecycle A → Result (Failure Raised) A
  from_lifecycle (ok a) = ok a
  from_lifecycle (err e) = err (registry_error e)

  unfoldable pub from_crud_error : {A : Type 0} → Crud A → Result (Failure Raised) A
  from_crud_error (ok a) = ok a
  from_crud_error (err e) = err (registry_error (crud_error e))

  unfoldable pub from_connection {ℓ} :
      {A : Type ℓ} → Result (ConnectionError Raised) A → Result (Failure Raised) A
  from_connection (ok a) = ok a
  from_connection (err e) = err (connection_error e)

module _ {Raised Answer : Type 0} where
  -- A handler that writes nothing.
  unfoldable pub only_answers : Database → Result (Failure Raised) Answer → Handled Raised Answer
  only_answers db r = record { database = db; answer = r }

  -- A handler whose one write is its last step: what it leaves when all steps went well. A step that
  -- raises has written nothing, also the UPDATE of a stale save and an INSERT that is refused.
  unfoldable pub writes :
      Database → Result (Failure Raised) (Database × Answer) → Handled Raised Answer
  writes db (ok (db', a)) = record { database = db'; answer = ok a }
  writes db (err e) = record { database = db; answer = err e }
