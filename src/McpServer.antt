-- ===== src/McpServer.antt =====
-- The endpoint of onto_platform/mcp_server.py: it authorises the token, finds the tool, runs its
-- handler on the tables in one transaction and writes the audit log. A tool's arguments and answers
-- are parameters here; the tools are in the modules below.
pub mod Calls
pub mod Editor
pub mod Admin
pub mod Reading
pub mod Catalog
pub mod Authority
pub mod Requests
pub mod Audited
pub mod Unused
mod Tests
use lingyunzhi_os_backend.Base.{
  ℕ, String, Bool, true, false, not, List, [], ◌∷◌, ◌++◌, Option, none, some, Result, ok, err,
  ◌>>=◌, ltb, ◌==◌, ◌||◌, if◌then◌else◌,
}
use lingyunzhi_os_backend.Dict.{Dict, lookup}
use lingyunzhi_os_backend.Registry.Store.{Registries}
use lingyunzhi_os_backend.Registry.Lifecycle.{
  LifecycleError, crud_error, stale_version, undo_unavailable,
}
use lingyunzhi_os_backend.Registry.Crud.Errors.{validation_failed, referenced, key_error}
use lingyunzhi_os_backend.Connections.Store.{
  Connection, ConnectionError, already_exists, not_found, probe_failed,
}
use lingyunzhi_os_backend.Access.{
  Scope, read, scope_value, TokenRow, TokenLookupResult, Denied, Hasher, require_scope,
}

pub data Outcome : Type 0 where
  forbidden_call failed_call ok_call : Outcome

-- A row of `audit_log`; the summary of the arguments is left out.
pub record AuditRow : Type 0 where
  pub token_id : String
  pub token_label : String
  pub scope : Scope
  pub tool : String
  pub outcome : Outcome
  pub error_code : Option String

-- The tables that the tools read and write.
pub record Database : Type 0 where
  pub registries : Registries
  pub tokens : List TokenRow
  pub connections : List Connection
  pub audit_log : List AuditRow

-- The exceptions that `_exc_to_error` tells apart; every other exception, such as those of Pydantic
-- and `ValueError`, is `raised`.
pub data Failure {ℓ} (Raised : Type ℓ) : Type ℓ where
  registry_error : LifecycleError → Failure Raised
  sql_rejected : Raised → Failure Raised
  connection_error : ConnectionError Raised → Failure Raised
  bound_asset_not_found : String → Failure Raised
  asset_unbound : String → Failure Raised
  missing_key : String → Failure Raised
  raised : Raised → Failure Raised

-- `_exc_to_error`: the status and the code; messages and details are left out.
unfoldable pub exc_to_error {ℓ} : {Raised : Type ℓ} → Failure Raised → ℕ × String
exc_to_error (registry_error (crud_error (validation_failed fs))) = (422, "VALIDATION_FAILED")
exc_to_error (registry_error (stale_version e)) = (409, "STALE_VERSION")
exc_to_error (registry_error (crud_error (referenced rid rs))) = (409, "REFERENCED")
exc_to_error (registry_error undo_unavailable) = (409, "UNDO_UNAVAILABLE")
exc_to_error (sql_rejected e) = (400, "SQL_REJECTED")
exc_to_error (connection_error (probe_failed e)) = (502, "CONNECTION_PROBE_FAILED")
exc_to_error (connection_error (not_found id)) = (404, "NOT_FOUND")
exc_to_error (bound_asset_not_found rid) = (404, "NOT_FOUND")
exc_to_error (asset_unbound rid) = (404, "NOT_FOUND")
exc_to_error (missing_key k) = (404, "NOT_FOUND")
exc_to_error (registry_error (crud_error (key_error k))) = (404, "NOT_FOUND")
exc_to_error (connection_error (already_exists label)) = (409, "ALREADY_EXISTS")
exc_to_error (raised e) = (500, "INTERNAL")

-- What a handler leaves in the tables, also when it raises, and what it returns or raises.
pub record Handled (Raised Answer : Type 0) : Type 0 where
  pub database : Database
  pub answer : Result (Failure Raised) Answer

-- The description and the schema of a tool are left out.
pub record ToolSpec (Raised Args Answer : Type 0) : Type 0 where
  pub name : String
  pub scope : Scope
  pub handler : TokenLookupResult → Args → Database → Handled Raised Answer

pub data Response (Answer : Type 0) : Type 0 where
  tools_listed : List String → Response Answer
  structured_content : Answer → Response Answer
  -- code -32000 with the required scope, or with the code of the error
  forbidden_response : Scope → Response Answer
  error_response : String → Response Answer
  -- code -32601
  unknown_tool : Option String → Response Answer
  unknown_method : Option String → Response Answer
  -- an exception that leaves the endpoint: status 500
  server_error : Response Answer

pub record Request (Args : Type 0) : Type 0 where
  pub token : Option (List ℕ)
  pub method : Option String
  pub name : Option String
  pub arguments : Args
  -- whether `audit.record` raises: `summarize_args` or `json.dumps` on the arguments, or the database
  -- after an exception of its own that `raised` stands for
  pub audit_raises : Bool

unfoldable pub audit_row : String → TokenLookupResult → Outcome → Option String → AuditRow
audit_row tool principal outcome error_code = record {
  token_id = principal.token_id;
  token_label = principal.label;
  scope = principal.scope;
  tool = tool;
  outcome = outcome;
  error_code = error_code;
}

-- `audit.record(…)`
unfoldable pub record_audit : AuditRow → Database → Database
record_audit r db = record db { audit_log = db.audit_log ++ (r ∷ []) }

-- After a duplicate label PostgreSQL refuses every further statement of the transaction; the other
-- exceptions that are told apart are raised by the program.
unfoldable pub is_aborted {ℓ} : {Raised : Type ℓ} → Failure Raised → Bool
is_aborted (connection_error (already_exists label)) = true
is_aborted _ = false

-- `audit.record(…)`, the commit and the response, over the tables as they were before the call: where
-- the record raises, nothing is committed; what others have committed by then is left out of that.
unfoldable pub audited :
    {Answer : Type 0}
    → Bool
    → Database
    → AuditRow
    → Database
    → Response Answer
    → Database × Response Answer
audited true before r db response = (before, server_error)
audited false before r db response = (record_audit r db, response)

-- `_TOOLS.get(name or "")`
abbrev pub or_blank : Option String → String
or_blank none = ""
or_blank (some s) = s

abbrev pub is_method : String → Option String → Bool
is_method m none = false
is_method m (some s) = s == m

-- `principal.scope < scope`
abbrev pub is_below : Scope → Scope → Bool
is_below a b = ltb (scope_value a) (scope_value b)

module _ {Raised Answer : Type 0} where
  -- What the endpoint does when the handler has returned or raised.
  unfoldable pub responded :
      Bool
      → Database
      → String
      → TokenLookupResult
      → Database
      → Result (Failure Raised) Answer
      → Database × Response Answer
  responded audit_raises before tool principal db (ok a) =
      audited audit_raises before (audit_row tool principal ok_call none) db (structured_content a)
  responded audit_raises before tool principal db (err e) =
      let code = (exc_to_error e).1 in
      audited (audit_raises || is_aborted e) before
        (audit_row tool principal failed_call (some code)) db (error_response code)

  unfoldable pub handled :
      Bool
      → Database
      → String
      → TokenLookupResult
      → Handled Raised Answer
      → Database × Response Answer
  handled audit_raises before tool principal h =
      responded audit_raises before tool principal h.database h.answer

module _ {Raised Args Answer : Type 0} where
  unfoldable pub call_tool :
      ToolSpec Raised Args Answer
      → TokenLookupResult
      → Bool
      → Args
      → Database
      → Database × Response Answer
  call_tool spec principal audit_raises args db =
      if is_below principal.scope spec.scope
      then audited audit_raises db (audit_row spec.name principal forbidden_call (some "FORBIDDEN"))
          db (forbidden_response spec.scope)
      else handled audit_raises db spec.name principal (spec.handler principal args db)

  unfoldable pub call_found :
      Option String
      → Option (ToolSpec Raised Args Answer)
      → TokenLookupResult
      → Bool
      → Args
      → Database
      → Database × Response Answer
  call_found name none principal audit_raises args db = (db, unknown_tool name)
  call_found name (some spec) principal audit_raises args db =
      call_tool spec principal audit_raises args db

  unfoldable pub visible_names :
      TokenLookupResult → Dict (ToolSpec Raised Args Answer) → List String
  visible_names principal [] = []
  visible_names principal ((k, spec) ∷ tools) =
      let rest = visible_names principal tools in
      if is_below principal.scope spec.scope then rest else spec.name ∷ rest

  module _ (tools : Dict (ToolSpec Raised Args Answer)) where
    unfoldable pub dispatch :
        Request Args → TokenLookupResult → Database → Database × Response Answer
    dispatch request principal db =
        if is_method "tools/list" request.method
        then (db, tools_listed (visible_names principal tools))
        else if is_method "tools/call" request.method
        then call_found request.name (lookup (or_blank request.name) tools) principal
            request.audit_raises request.arguments db
        else (db, unknown_method request.method)

    -- The tables after the request, or the refusal of the token.
    unfoldable pub mcp_endpoint :
        Hasher → Request Args → Database → Result Denied (Database × Response Answer)
    mcp_endpoint hasher request db =
        require_scope hasher read db.tokens request.token >>= λ principal.
        ok (dispatch request principal db)
