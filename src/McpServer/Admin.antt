-- ===== src/McpServer/Admin.antt =====
-- The tools of onto_platform/mcp_tools_admin.py.
use lingyunzhi_os_backend.Base.{
  String, Bool, false, ◌||◌, [], ◌∷◌, some, Result, ok, err, ◌>>=◌, ◌==◌, if◌then◌else◌,
}
use lingyunzhi_os_backend.Dict.{Dict}
use lingyunzhi_os_backend.ProtoModels.{ObjectTypeDefinition, LinkTypeDefinition, OntologyRegistry}
use lingyunzhi_os_backend.Registry.Store.{staging, production, Registries, load}
use lingyunzhi_os_backend.Registry.Lifecycle.{
  Moved, result, promote_among, revert_among, undo_among,
}
use lingyunzhi_os_backend.Connections.Store.{register_connection, delete_connection_row}
use lingyunzhi_os_backend.Access.{TokenLookupResult, insert_token, revoke_token, is_affected}
use lingyunzhi_os_backend.McpServer.{Failure, raised, Database, Handled}
use lingyunzhi_os_backend.McpServer.Editor.{conn_ids}
use lingyunzhi_os_backend.McpServer.Calls.{
  ToolArguments, ToolAnswer, done, token_minted, token_revoked, token_list, connection,
  connection_deleted, connection_list, Context, given, from_lifecycle, from_connection,
  only_answers, writes,
}

-- `e.asset_mapping.read_connection_id == connection_id` for some entry of the map
unfoldable pub reads_objects : String → Dict ObjectTypeDefinition → Bool
reads_objects id [] = false
reads_objects id ((rid, obj) ∷ d) = obj.asset_mapping.read_connection_id == id || reads_objects id d

unfoldable pub reads_links : String → Dict LinkTypeDefinition → Bool
reads_links id [] = false
reads_links id ((rid, lt) ∷ d) = lt.asset_mapping.read_connection_id == id || reads_links id d

unfoldable pub reads_connection : String → OntologyRegistry → Bool
reads_connection id reg = reads_objects id reg.object_types || reads_links id reg.link_types

-- The loop over the environments of `mcp_delete_connection`.
unfoldable pub is_in_use : String → Registries → Bool
is_in_use id t =
    reads_connection id (load t staging).registry
    || reads_connection id (load t production).registry

module _ {Raised : Type 0} (c : Context Raised) where
  -- A tool that is an operation of registry/lifecycle.py: what the operation leaves when it raises
  -- stays in the session, which the endpoint commits.
  unfoldable pub moved :
      Database → Result (Failure Raised) (Unit {0}) → Moved → Handled Raised ToolAnswer
  moved db (err e) m = record { database = db; answer = err e }
  moved db (ok u) m = record {
    database = record db { registries = m.registries };
    answer = from_lifecycle (result m) >>= λ _. ok done;
  }

  unfoldable pub mcp_promote :
      TokenLookupResult → ToolArguments Raised → Database → Handled Raised ToolAnswer
  mcp_promote principal args db = moved db (given args.binding) (
      promote_among c.meanwhile c.now (some principal.label) db.registries args.commit_message
        (conn_ids db))

  unfoldable pub mcp_revert :
      TokenLookupResult → ToolArguments Raised → Database → Handled Raised ToolAnswer
  mcp_revert principal args db =
      moved db (given args.binding)
        (revert_among c.meanwhile c.now (some principal.label) db.registries)

  unfoldable pub mcp_undo :
      TokenLookupResult → ToolArguments Raised → Database → Handled Raised ToolAnswer
  mcp_undo principal args db =
      moved db (given args.binding)
        (undo_among c.meanwhile c.now (some principal.label) db.registries)

  unfoldable pub mcp_mint :
      TokenLookupResult → ToolArguments Raised → Database → Handled Raised ToolAnswer
  mcp_mint principal args db = writes db (
      given args.binding >>= λ _. args.scope >>= λ scope. ok (
        record db {
          tokens =
              insert_token c.hasher c.new_id c.salt c.plaintext scope args.label
                (some principal.token_id) db.tokens;
        },
        token_minted c.plaintext c.new_id,
      ))

  unfoldable pub mcp_revoke :
      TokenLookupResult → ToolArguments Raised → Database → Handled Raised ToolAnswer
  mcp_revoke principal args db = writes db (
      given args.binding >>= λ _. given args.token_uuid >>= λ id. ok (
        record db { tokens = revoke_token c.now id db.tokens },
        token_revoked (is_affected id db.tokens),
      ))

  -- The hashes are not part of the answer.
  unfoldable pub mcp_list_tokens :
      TokenLookupResult → ToolArguments Raised → Database → Handled Raised ToolAnswer
  mcp_list_tokens principal args db =
      only_answers db (given args.binding >>= λ _. ok (token_list (c.by_creation db.tokens)))

  unfoldable pub mcp_add_connection :
      TokenLookupResult → ToolArguments Raised → Database → Handled Raised ToolAnswer
  mcp_add_connection principal args db = writes db (
      given args.binding >>= λ _. given args.connection_kind >>= λ kind.
      from_connection (
        register_connection c.now c.new_id c.probe c.encrypt args.label kind args.dsn
          db.connections)
      >>= λ p. ok (record db { connections = p.0 }, connection p.1))

  -- The guard and the DELETE of `mcp_delete_connection`.
  unfoldable pub unless_in_use :
      ToolArguments Raised → Database → Result (Failure Raised) (Database × ToolAnswer)
  unless_in_use args db =
      if is_in_use args.connection_id db.registries
      then err (raised c.in_use)
      else given args.connection_uuid >>= λ id.
          ok (
            record db { connections = delete_connection_row id db.connections },
            connection_deleted,
          )

  unfoldable pub mcp_delete_connection :
      TokenLookupResult → ToolArguments Raised → Database → Handled Raised ToolAnswer
  mcp_delete_connection principal args db =
      writes db (given args.binding >>= λ _. unless_in_use args db)

  unfoldable pub mcp_list_connections :
      TokenLookupResult → ToolArguments Raised → Database → Handled Raised ToolAnswer
  mcp_list_connections principal args db =
      only_answers db (given args.binding >>= λ _. ok (connection_list (c.by_label db.connections)))
