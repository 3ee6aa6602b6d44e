-- ===== src/McpServer/Requests.antt =====
-- What a request to the endpoint of onto_platform/mcp_server.py can change, when its tools are those
-- of mcp_tools_read.py, mcp_tools_editor.py and mcp_tools_admin.py.
use lingyunzhi_os_backend.Base.{
  String, ◌≡◌, ◌⊎◌, refl, ap, ◌∙◌, Bool, true, false, Option, none, some, inl, inr, Bool-cases,
  Result, ok, err, ok_injective,
}
use mathlib.Core.Path.{subst}
use lingyunzhi_os_backend.Dict.{lookup}
use lingyunzhi_os_backend.Registry.Store.{Registries, staging}
use lingyunzhi_os_backend.Registry.Store.Locking.{save-ok}
use lingyunzhi_os_backend.Access.{
  Scope, read, editor, admin, TokenLookupResult, Hasher, require_scope,
}
use lingyunzhi_os_backend.McpServer.{
  Failure, Database, Request, Response, is_method, or_blank, is_below, AuditRow, audited,
  record_audit, responded, handled, call_tool, call_found, dispatch, mcp_endpoint,
}
use lingyunzhi_os_backend.McpServer.Calls.{ToolArguments, ToolAnswer, Context}
use lingyunzhi_os_backend.McpServer.Catalog.{Tool, tools}
use lingyunzhi_os_backend.McpServer.Authority.{
  Allowed, nothing, edits, registries_change, tokens_change, connections_change,
}
use lingyunzhi_os_backend.McpServer.Authority.Steps.{Keeps, lookup-Keeps, tools-AllKeep}

-- The two differ in their audit logs at most.
abbrev SameTables : Database → Database → Type 0
SameTables d e =
    (e.registries ≡ d.registries) × (e.tokens ≡ d.tokens) × (e.connections ≡ d.connections)

same_tables : (d : Database) → SameTables d d
same_tables d = (refl, refl, refl)

-- What a caller may do to the tables: what a tool of some scope may, where the scope is not above
-- the caller's.
abbrev Within : TokenLookupResult → Database → Database → Type 0
Within p d e =
    (s : Scope) × (d' : Database) × Allowed d s d' × (is_below p.scope s ≡ false) × SameTables d' e

read_lowest : (s : Scope) → is_below s read ≡ false
read_lowest read = refl
read_lowest editor = refl
read_lowest admin = refl

idle : (p : TokenLookupResult) (d e : Database) → SameTables d e → Within p d e
idle p d e h = (read, d, nothing read, read_lowest p.scope, h)

audited-Within :
    (audit_raises : Bool) (p : TokenLookupResult) (before : Database) (row : AuditRow)
    (db : Database) (response : Response ToolAnswer)
    → Within p before db
    → Within p before (audited audit_raises before row db response).0
unfolding audited record_audit
audited-Within true p before row db response h = idle p before before (same_tables before)
audited-Within false p before row db response (s, d, allowed, enough, same) =
    (s, d, allowed, enough, same)

module _ {Raised : Type 0} where
  responded-Within :
      (audit_raises : Bool) (before : Database) (tool : String) (p : TokenLookupResult)
      (db : Database) (r : Result (Failure Raised) ToolAnswer)
      → Within p before db
      → Within p before (responded audit_raises before tool p db r).0
  unfolding responded
  responded-Within audit_raises before tool p db (ok a) h =
      audited-Within audit_raises p before _ db _ h
  responded-Within audit_raises before tool p db (err e) h = audited-Within _ p before _ db _ h

  call_tool-Within :
      (spec : Tool Raised) (p : TokenLookupResult) (audit_raises : Bool)
      (args : ToolArguments Raised) (db : Database)
      → Keeps spec
      → Within p db (call_tool spec p audit_raises args db).0
  unfolding call_tool handled
  call_tool-Within spec p audit_raises args db keeps =
      elim (Bool-cases (is_below p.scope spec.scope)) [
        | inl below ↦
            rw below (audited-Within audit_raises p db _ db _ (idle p db db (same_tables db)))
        | inr enough ↦ rw enough (
            let d = (spec.handler p args db).database in
            responded-Within audit_raises db spec.name p d (spec.handler p args db).answer
              (spec.scope, d, keeps p args db, enough, same_tables d))
      ]

  module _ (c : Context Raised) where
    call_found-Within :
        (name : Option String) (found : Option (Tool Raised)) (p : TokenLookupResult)
        (audit_raises : Bool) (args : ToolArguments Raised) (db : Database)
        → lookup (or_blank name) (tools c) ≡ found
        → Within p db (call_found name found p audit_raises args db).0
    unfolding call_found
    call_found-Within name none p audit_raises args db e = idle p db db (same_tables db)
    call_found-Within name (some spec) p audit_raises args db e =
        call_tool-Within spec p audit_raises args db
          (lookup-Keeps (or_blank name) (tools-AllKeep c) e)

    dispatch-Within :
        (request : Request (ToolArguments Raised)) (p : TokenLookupResult) (db : Database)
        → Within p db (dispatch (tools c) request p db).0
    unfolding dispatch
    dispatch-Within request p db = elim (Bool-cases (is_method "tools/list" request.method)) [
      | inl list ↦ rw list (idle p db db (same_tables db))
      | inr other ↦ rw other (elim (Bool-cases (is_method "tools/call" request.method)) [
        | inl call ↦
            rw call
              (call_found-Within request.name _ p request.audit_raises request.arguments db refl)
        | inr unknown ↦ rw unknown (idle p db db (same_tables db))
      ])
    ]

    -- The endpoint when the token is accepted.
    endpoint-Within :
        (hasher : Hasher) (request : Request (ToolArguments Raised)) (db : Database)
        {p : TokenLookupResult} {db' : Database} {r : Response ToolAnswer}
        → require_scope hasher read db.tokens request.token ≡ ok p
        → mcp_endpoint (tools c) hasher request db ≡ ok (db', r)
        → Within p db db'
    unfolding mcp_endpoint
    endpoint-Within hasher request db {p = p} accepted e =
        subst (Within p db) (ap (λ q. q.0) (ok_injective (rw accepted at e)))
          (dispatch-Within request p db)

admin_edits : (s : Scope) → is_below s admin ≡ false → is_below s editor ≡ false
admin_edits read h = h
admin_edits editor h = refl
admin_edits admin h = refl

-- Staging and the rest of the tables, in two steps of authority.
abbrev pub Guarded : TokenLookupResult → Database → Database → Type 0
Guarded p d e =
    ((is_below p.scope editor ≡ false) ⊎ (e.registries ≡ d.registries))
    × ((is_below p.scope admin ≡ false)
        ⊎ ((e.registries.production_row ≡ d.registries.production_row)
            × (e.registries.previous_row ≡ d.registries.previous_row)
            × (e.tokens ≡ d.tokens)
            × (e.connections ≡ d.connections)))

Allowed-Guarded :
    (p : TokenLookupResult) (d : Database) (s : Scope) (e : Database)
    → Allowed d s e
    → is_below p.scope s ≡ false
    → Guarded p d e
Allowed-Guarded p d s e (nothing _) h = (inr refl, inr (refl, refl, refl, refl))
Allowed-Guarded p d s e (edits now registry expected label saved) h =
    let (_, wrote, _) = save-ok now d.registries staging registry expected label none saved in
    (
      inl h,
      inr (
        ap (λ (t : Registries). t.production_row) wrote,
        ap (λ (t : Registries). t.previous_row) wrote,
        refl,
        refl,
      ),
    )
Allowed-Guarded p d s e (registries_change t) h = (inl (admin_edits p.scope h), inl h)
Allowed-Guarded p d s e (tokens_change ts) h = (inl (admin_edits p.scope h), inl h)
Allowed-Guarded p d s e (connections_change cs) h = (inl (admin_edits p.scope h), inl h)

Guarded-SameTables :
    (p : TokenLookupResult) (d e e' : Database) → Guarded p d e → SameTables e e' → Guarded p d e'
Guarded-SameTables p d e e' (staged, rest) (regs, toks, conns) = (
  elim staged [ inl h ↦ inl h | inr h ↦ inr (regs ∙ h) ],
  elim rest [
    | inl h ↦ inl h
    | inr (prod, prev, ts, cs) ↦ inr (
      ap (λ (t : Registries). t.production_row) regs ∙ prod,
      ap (λ (t : Registries). t.previous_row) regs ∙ prev,
      toks ∙ ts,
      conns ∙ cs,
    )
  ],
)

module _ {Raised : Type 0} (c : Context Raised) (hasher : Hasher) where
  -- A request with a token that is accepted changes staging only when the token's scope is at least
  -- editor, and the production and previous rows, the tokens and the connections only when it is
  -- admin, whatever tool of the catalog it names, if any, and whatever the arguments are.
  pub mcp_endpoint-scope :
      (request : Request (ToolArguments Raised)) (db : Database) {p : TokenLookupResult}
      {db' : Database} {r : Response ToolAnswer}
      → require_scope hasher read db.tokens request.token ≡ ok p
      → mcp_endpoint (tools c) hasher request db ≡ ok (db', r)
      → Guarded p db db'
  mcp_endpoint-scope request db {p} {db'} accepted e =
      let (s, d, allowed, enough, same) = endpoint-Within c hasher request db accepted e in
      Guarded-SameTables p db d db' (Allowed-Guarded p db s d allowed enough) same
