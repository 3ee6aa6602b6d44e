-- ===== src/McpServer/Authority/Steps.antt =====
-- Each tool of onto_platform/mcp_tools_read.py, mcp_tools_editor.py and mcp_tools_admin.py does what
-- its scope allows.
use lingyunzhi_os_backend.Base.{
  String, ◌≡◌, ap, Bool, true, false, List, [], ◌∷◌, ◌++◌, Option, some, inl, inr, Bool-cases,
  Result, ok, err, ◌>>=◌, bind_ok, ok_injective, ◌==◌, if◌then◌else◌,
}
use mathlib.Core.Path.{subst}
use lingyunzhi_os_backend.Dict.{Dict, lookup}
use lingyunzhi_os_backend.Registry.Crud.Errors.{Crud}
use lingyunzhi_os_backend.ProtoModels.{OntologyRegistry}
use lingyunzhi_os_backend.Access.{read, editor, admin, TokenLookupResult}
use lingyunzhi_os_backend.McpServer.{Failure, Database}
use lingyunzhi_os_backend.McpServer.Calls.{
  ToolArguments, ToolAnswer, Context, given, from_connection, only_answers, writes,
}
use lingyunzhi_os_backend.McpServer.Editor.{
  validate_staging, put_handler, delete_handler, import_full, asset_mapping_handler,
}
use lingyunzhi_os_backend.McpServer.Reading.{
  whoami, get_registry, lister, get_entity, find_by_api_name, mcp_describe_bound_asset,
  mcp_query_sql,
}
use lingyunzhi_os_backend.McpServer.Admin.{
  mcp_promote, mcp_revert, mcp_undo, mcp_mint, mcp_revoke, mcp_list_tokens, mcp_add_connection,
  mcp_delete_connection, mcp_list_connections, is_in_use, unless_in_use,
}
use lingyunzhi_os_backend.McpServer.Catalog.{Tool, tools, read_tools, editor_tools, admin_tools}
use lingyunzhi_os_backend.McpServer.Authority.{
  Allowed, nothing, tokens_change, connections_change, writes-Allowed, edited-Allowed,
  moved-Allowed,
}

module _ {Raised : Type 0} where
  abbrev pub Keeps : Tool Raised → Type 0
  Keeps spec =
      (principal : TokenLookupResult) (args : ToolArguments Raised) (db : Database)
      → Allowed db spec.scope (spec.handler principal args db).database

  infixr 20 ◌▹◌
  pub data AllKeep : Dict (Tool Raised) → Type 0 where
    all_kept : AllKeep []
    ◌▹◌ :
        {k : String} {spec : Tool Raised} {d : Dict (Tool Raised)}
        → Keeps spec
        → AllKeep d
        → AllKeep ((k, spec) ∷ d)

  AllKeep-append : {d e : Dict (Tool Raised)} → AllKeep d → AllKeep e → AllKeep (d ++ e)
  AllKeep-append all_kept k = k
  AllKeep-append (h ▹ hs) k = h ▹ AllKeep-append hs k

  some_injective : {a b : Tool Raised} → ◌≡◌ {A = Option (Tool Raised)} (some a) (some b) → a ≡ b
  some_injective h = cc

  pub lookup-Keeps :
      (name : String) {d : Dict (Tool Raised)} {spec : Tool Raised}
      → AllKeep d
      → lookup name d ≡ some spec
      → Keeps spec
  unfolding lookup
  lookup-Keeps name all_kept e = absurd cc
  lookup-Keeps name (◌▹◌ {k = j} h hs) e = elim (Bool-cases (j == name)) [
    | inl same ↦ subst Keeps (some_injective (rw same at e)) h
    | inr other ↦ lookup-Keeps name hs (rw other at e)
  ]

  put-Keeps :
      {D : Type 0} (c : Context Raised)
      (putter : OntologyRegistry → D → List String → Crud OntologyRegistry)
      (definition : ToolArguments Raised → Result Raised D) (principal : TokenLookupResult)
      (args : ToolArguments Raised) (db : Database)
      → Allowed db editor (put_handler c putter definition principal args db).database
  unfolding put_handler
  put-Keeps c putter definition principal args db = edited-Allowed c principal args db _

  delete-Keeps :
      (c : Context Raised) (deleter : OntologyRegistry → String → Crud OntologyRegistry)
      (principal : TokenLookupResult) (args : ToolArguments Raised) (db : Database)
      → Allowed db editor (delete_handler c deleter principal args db).database
  unfolding delete_handler
  delete-Keeps c deleter principal args db = edited-Allowed c principal args db _

  module _ (c : Context Raised) where
    read_tools-AllKeep : AllKeep (read_tools c)
    unfolding read_tools whoami get_registry lister get_entity find_by_api_name
        mcp_describe_bound_asset mcp_query_sql only_answers
    read_tools-AllKeep =
        (λ p args db. nothing read)
        ▹ (λ p args db. nothing read)
        ▹ (λ p args db. nothing read)
        ▹ (λ p args db. nothing read)
        ▹ (λ p args db. nothing read)
        ▹ (λ p args db. nothing read)
        ▹ (λ p args db. nothing read)
        ▹ (λ p args db. nothing read)
        ▹ (λ p args db. nothing read)
        ▹ (λ p args db. nothing read)
        ▹ (λ p args db. nothing read)
        ▹ all_kept

    editor_tools-AllKeep : AllKeep (editor_tools c)
    unfolding editor_tools validate_staging import_full asset_mapping_handler only_answers
    editor_tools-AllKeep =
        (λ p args db. nothing editor)
        ▹ put-Keeps c _ _
        ▹ delete-Keeps c _
        ▹ put-Keeps c _ _
        ▹ delete-Keeps c _
        ▹ put-Keeps c _ _
        ▹ delete-Keeps c _
        ▹ put-Keeps c _ _
        ▹ delete-Keeps c _
        ▹ put-Keeps c _ _
        ▹ delete-Keeps c _
        ▹ (λ p args db. edited-Allowed c p args db _)
        ▹ (λ p args db. edited-Allowed c p args db _)
        ▹ all_kept

    promote-Keeps :
        (p : TokenLookupResult) (args : ToolArguments Raised) (db : Database)
        → Allowed db admin (mcp_promote c p args db).database
    unfolding mcp_promote
    promote-Keeps p args db = moved-Allowed c db (given args.binding) _

    revert-Keeps :
        (p : TokenLookupResult) (args : ToolArguments Raised) (db : Database)
        → Allowed db admin (mcp_revert c p args db).database
    unfolding mcp_revert
    revert-Keeps p args db = moved-Allowed c db (given args.binding) _

    undo-Keeps :
        (p : TokenLookupResult) (args : ToolArguments Raised) (db : Database)
        → Allowed db admin (mcp_undo c p args db).database
    unfolding mcp_undo
    undo-Keeps p args db = moved-Allowed c db (given args.binding) _

    -- A guard that was passed.
    unguarded :
        {A : Type 0} (b : Bool) (x : Failure Raised) (r : Result (Failure Raised) A) {a : A}
        → (if b then err x else r) ≡ ok a
        → r ≡ ok a
    unguarded true x r h = absurd cc
    unguarded false x r h = h

    -- The last step of a chain, which is where the tables are written.
    last :
        {A : Type 0} (db : Database) (r : Result (Failure Raised) A)
        (f : A → Result (Failure Raised) (Database × ToolAnswer))
        → ((a : A) (db' : Database) (x : ToolAnswer) → f a ≡ ok (db', x) → Allowed db admin db')
        → Allowed db admin (writes db (r >>= f)).database
    last db r f h =
        writes-Allowed admin db _ (λ db' x e. let (a, _, e') = bind_ok r f e in h a db' x e')

    written :
        (db : Database) {p : Database × ToolAnswer} (db' : Database) (x : ToolAnswer)
        → Allowed db admin p.0
        → ◌≡◌ {A = Result (Failure Raised) (Database × ToolAnswer)} (ok p) (ok (db', x))
        → Allowed db admin db'
    written db db' x h e = subst (Allowed db admin) (ap (λ q. q.0) (ok_injective e)) h

    mint-Keeps :
        (p : TokenLookupResult) (args : ToolArguments Raised) (db : Database)
        → Allowed db admin (mcp_mint c p args db).database
    unfolding mcp_mint
    mint-Keeps p args db = last db (given args.binding) _ (λ _ db' x e.
        let (scope, _, e') = bind_ok args.scope _ e in written db db' x (tokens_change _) e')

    revoke-Keeps :
        (p : TokenLookupResult) (args : ToolArguments Raised) (db : Database)
        → Allowed db admin (mcp_revoke c p args db).database
    unfolding mcp_revoke
    revoke-Keeps p args db = last db (given args.binding) _ (λ _ db' x e.
        let (id, _, e') = bind_ok (given args.token_uuid) _ e in
        written db db' x (tokens_change _) e')

    add_connection-Keeps :
        (p : TokenLookupResult) (args : ToolArguments Raised) (db : Database)
        → Allowed db admin (mcp_add_connection c p args db).database
    unfolding mcp_add_connection
    add_connection-Keeps p args db = last db (given args.binding) _ (λ _ db' x e.
        let (kind, _, e') = bind_ok (given args.connection_kind) _ e in
        let (q, _, e'') = bind_ok (from_connection _) _ e' in
        written db db' x (connections_change _) e'')

    delete_connection-Keeps :
        (p : TokenLookupResult) (args : ToolArguments Raised) (db : Database)
        → Allowed db admin (mcp_delete_connection c p args db).database
    unfolding mcp_delete_connection unless_in_use
    delete_connection-Keeps p args db = last db (given args.binding) _ (λ _ db' x e.
        let e' = unguarded (is_in_use args.connection_id db.registries) _ _ e in
        let (id, _, e'') = bind_ok (given args.connection_uuid) _ e' in
        written db db' x (connections_change _) e'')

    admin_tools-AllKeep : AllKeep (admin_tools c)
    unfolding admin_tools mcp_list_tokens mcp_list_connections only_answers
    admin_tools-AllKeep =
        promote-Keeps
        ▹ revert-Keeps
        ▹ undo-Keeps
        ▹ mint-Keeps
        ▹ revoke-Keeps
        ▹ (λ p args db. nothing admin)
        ▹ add_connection-Keeps
        ▹ delete_connection-Keeps
        ▹ (λ p args db. nothing admin)
        ▹ all_kept

    pub tools-AllKeep : AllKeep (tools c)
    unfolding tools
    tools-AllKeep =
        AllKeep-append (AllKeep-append read_tools-AllKeep editor_tools-AllKeep) admin_tools-AllKeep
