-- ===== src/McpServer/Authority.antt =====
-- What a request to onto_platform/mcp_server.py can change, and with which scope: the tools of
-- mcp_tools_read.py, mcp_tools_editor.py and mcp_tools_admin.py under the check of the scope.
pub mod Steps
use lingyunzhi_os_backend.Base.{
  ℕ, String, ◌≡◌, ◌⊎◌, refl, sym, ◌∙◌, ap, Bool, true, false, List, [], ◌∷◌, ◌++◌, Option, none,
  some, inl, inr, Result, ok, err, ◌>>=◌, bind_ok, ok_injective, Bool-cases, ltb, if◌then◌else◌,
  ◌==◌, arith,
}
use mathlib.Core.Path.{subst}
use lingyunzhi_os_backend.Dict.{Dict, lookup}
use lingyunzhi_os_backend.ProtoModels.{OntologyRegistry}
use lingyunzhi_os_backend.Registry.Store.{staging, Registries, save, StaleVersion}
use lingyunzhi_os_backend.Registry.Lifecycle.{Lifecycle, Moved}
use lingyunzhi_os_backend.Connections.Store.{Connection}
use lingyunzhi_os_backend.Access.{
  Scope, read, editor, admin, scope_value, TokenRow, TokenLookupResult,
}
use lingyunzhi_os_backend.McpServer.{Failure, Database, Handled}
use lingyunzhi_os_backend.McpServer.Calls.{
  ToolArguments, ToolAnswer, Context, given, from_lifecycle, from_connection, only_answers, writes,
}
use lingyunzhi_os_backend.McpServer.Editor.{conn_ids, version_saved, save_staging, edited}
use lingyunzhi_os_backend.McpServer.Admin.{moved}

-- What a tool of a scope may do to the tables.
pub data Allowed (db : Database) : Scope → Database → Type 0 where
  nothing : (s : Scope) → Allowed db s db
  -- a save of staging
  edits :
      {t : Registries} {v : ℕ} (now : ℕ) (registry : OntologyRegistry) (expected : Option ℕ)
      (label : Option String)
      → save now db.registries staging registry expected label none ≡ ok (t, v)
      → Allowed db editor (record db { registries = t })
  -- a promotion, a revert or an undo, and what others commit meanwhile
  registries_change : (t : Registries) → Allowed db admin (record db { registries = t })
  tokens_change : (ts : List TokenRow) → Allowed db admin (record db { tokens = ts })
  connections_change : (cs : List Connection) → Allowed db admin (record db { connections = cs })

module _ {Raised : Type 0} where
  from_lifecycle-ok :
      {A : Type 0} (r : Lifecycle A) {a : A}
      → ◌≡◌ {A = Result (Failure Raised) A} (from_lifecycle r) (ok a)
      → r ≡ ok a
  unfolding from_lifecycle
  from_lifecycle-ok (ok a) h = ap ok (ok_injective h)
  from_lifecycle-ok (err e) h = absurd cc

  writes-Allowed :
      (s : Scope) (db : Database) (r : Result (Failure Raised) (Database × ToolAnswer))
      → ((db' : Database) (a : ToolAnswer) → r ≡ ok (db', a) → Allowed db s db')
      → Allowed db s (writes db r).database
  unfolding writes
  writes-Allowed s db (ok (db', a)) h = h db' a refl
  writes-Allowed s db (err e) h = nothing s

version_saved-Allowed :
    (now : ℕ) (db : Database) (registry : OntologyRegistry) (expected : Option ℕ)
    (label : Option String) (r : Result StaleVersion (Registries × ℕ))
    → save now db.registries staging registry expected label none ≡ r
    → (db' : Database) (a : ToolAnswer) → version_saved db r ≡ ok (db', a)
    → Allowed db editor db'
unfolding version_saved
version_saved-Allowed now db registry expected label (ok (t, v)) e db' a h =
    subst (Allowed db editor) (ap (λ p. p.0) (ok_injective h)) (edits now registry expected label e)
version_saved-Allowed now db registry expected label (err x) e db' a h = absurd cc

module _ {Raised : Type 0} (c : Context Raised) where
  pub edited-Allowed :
      (principal : TokenLookupResult) (args : ToolArguments Raised) (db : Database)
      (r : Result (Failure Raised) OntologyRegistry)
      → Allowed db editor (edited c principal args db r).database
  unfolding edited save_staging
  edited-Allowed principal args db r = writes-Allowed editor db _ (λ db' a h.
      let (new_reg, e, h') = bind_ok r _ h in
      version_saved-Allowed c.now db new_reg _ _ _ refl db' a (from_lifecycle-ok _ h'))

  pub moved-Allowed :
      (db : Database) (bound : Result (Failure Raised) (Unit {0})) (m : Moved)
      → Allowed db admin (moved c db bound m).database
  unfolding moved
  moved-Allowed db (ok u) m = registries_change m.registries
  moved-Allowed db (err e) m = nothing admin
