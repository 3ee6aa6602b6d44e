-- ===== src/McpServer/Tests.antt =====
-- An editor who deletes the pump, an administrator who deletes a connection, and the theorems at them.
use lingyunzhi_os_backend.Base.{String, ◌≡◌, refl, false, [], ◌∷◌, none, some, ok, err, ◌==◌}
use lingyunzhi_os_backend.Dict.{lookup}
use lingyunzhi_os_backend.Registry.Samples.{pump_rid, with_pump, stage}
use lingyunzhi_os_backend.Registry.Store.{staging, production, initial, load}
use lingyunzhi_os_backend.Registry.Checks.Refs.{Kind}
use lingyunzhi_os_backend.Registry.Crud.Entities.{entry}
use lingyunzhi_os_backend.Registry.Crud.{delete_object_type}
use lingyunzhi_os_backend.Registry.Lifecycle.{quiet}
use lingyunzhi_os_backend.Connections.Store.{Connection, postgres, find_id}
use lingyunzhi_os_backend.Access.{
  read, editor, TokenLookupResult, Hasher, insert_token, require_scope, lookup_token,
  first_verified, candidates, same_text, is_live, allowed,
}
use lingyunzhi_os_backend.McpServer.{
  Database, Request, Response, Failure, dispatch, mcp_endpoint, or_blank,
}
use lingyunzhi_os_backend.McpServer.Calls.{
  ToolArguments, ToolAnswer, Context, connection_deleted, given, writes,
}
use lingyunzhi_os_backend.McpServer.Editor.{delete_handler}
use lingyunzhi_os_backend.McpServer.Admin.{
  reads_objects, reads_links, reads_connection, is_in_use, unless_in_use, mcp_delete_connection,
}
use lingyunzhi_os_backend.McpServer.Catalog.{Tool, tools, read_tools, editor_tools, admin_tools}
use lingyunzhi_os_backend.McpServer.Requests.{Guarded, mcp_endpoint-scope}
use lingyunzhi_os_backend.McpServer.Audited.{Logged, mcp_endpoint-Logged}
use lingyunzhi_os_backend.McpServer.Unused.{reads_at, mcp_delete_connection-ok}

-- Unfolding this unfolds the endpoint, its tools and the check of the token.
unfoldable serving : Unit {0}
unfolding lookup load insert_token require_scope lookup_token first_verified candidates same_text
    is_live allowed mcp_endpoint tools read_tools editor_tools admin_tools given writes
    reads_objects reads_links reads_connection is_in_use unless_in_use mcp_delete_connection
serving = tt

abbrev by_first : Hasher
by_first = record { hash = λ salt plaintext. "h"; verify = λ h plaintext. h == "h" }

abbrev context : Context String
context = record {
  now = 3;
  meanwhile = quiet;
  hasher = by_first;
  new_id = "9";
  salt = 0;
  plaintext = b'z' ∷ [];
  probe = λ kind dsn. none;
  encrypt = λ dsn. dsn;
  is_within = λ needle field. needle == field;
  by_label = λ cs. cs;
  by_creation = λ ts. ts;
  query = λ reg conn sql rows timeout. err (Failure.raised "not connected");
  in_use = "in use";
  query_default_max_rows = 100;
  query_max_rows_cap = 1000;
  query_default_timeout_ms = 1000;
  query_timeout_ms_cap = 5000;
}

abbrev arguments : ToolArguments String
arguments = record {
  binding = ok tt;
  definitions = record {
    shared_definition = err "definition";
    interface_definition = err "definition";
    object_definition = err "definition";
    link_definition = err "definition";
    action_definition = err "definition";
    rid = err "rid";
    asset_mapping = err "asset_mapping";
    registry = err "registry";
    mode = err "mode";
  };
  expected_version = some 1;
  env = err "env";
  filter = none;
  rid = pump_rid;
  api_name = "";
  kind = none;
  commit_message = "";
  scope = err (Failure.missing_key "");
  label = "";
  token_uuid = err "token_id";
  connection_kind = err "kind";
  dsn = "";
  connection_id = "c";
  connection_uuid = ok "c";
  sql = "";
  max_rows = none;
  timeout_ms = none;
}

abbrev warehouse : Connection
warehouse = record {
  id = "c";
  label = "warehouse";
  kind = postgres;
  dsn_encrypted = "";
  last_probe_ok_at = none;
}

abbrev before : Database
before = record {
  registries = stage with_pump initial;
  tokens = insert_token by_first "1" 0 (b'a' ∷ []) editor "first" none [];
  connections = warehouse ∷ [];
  audit_log = [];
}

abbrev request : Request (ToolArguments String)
request = record {
  token = some (b'a' ∷ []);
  method = some "tools/call";
  name = some "delete_object_type";
  arguments = arguments;
  audit_raises = false;
}

abbrev caller : TokenLookupResult
caller = record { token_id = "1"; scope = editor; label = "first" }

abbrev after : Database × Response ToolAnswer
after = dispatch (tools context) request caller before

accepted : require_scope by_first read before.tokens request.token ≡ ok caller
unfolding serving
accepted = refl

served : mcp_endpoint (tools context) by_first request before ≡ ok after
unfolding serving
served = refl

abbrev deletion_tool : Tool String
deletion_tool = record {
  name = "delete_object_type";
  scope = editor;
  handler = delete_handler context delete_object_type;
}

found : lookup (or_blank request.name) (tools context) ≡ some deletion_tool
unfolding serving
found = refl

mcp_endpoint-scope_example : Guarded caller before after.0
mcp_endpoint-scope_example = mcp_endpoint-scope context by_first request before accepted served

mcp_endpoint-Logged_example :
    Logged false
      (deletion_tool.handler caller arguments before).answer
      "delete_object_type"
      caller
      before
      after
mcp_endpoint-Logged_example =
    mcp_endpoint-Logged context by_first request before refl found accepted served

answered_deleted :
    (mcp_delete_connection context caller arguments before).answer ≡ ok connection_deleted
unfolding serving
answered_deleted = refl

mcp_delete_connection-ok_example :
    ((k : Kind) (rid : String)
      → (reads_at "c" (entry (load before.registries staging).registry k rid) ≡ false)
        × (reads_at "c" (entry (load before.registries production).registry k rid) ≡ false))
    × (find_id "c" (mcp_delete_connection context caller arguments before).database.connections
        ≡ none)
    × ((mcp_delete_connection context caller arguments before).database.registries
        ≡ before.registries)
mcp_delete_connection-ok_example =
    mcp_delete_connection-ok context caller arguments before refl answered_deleted
