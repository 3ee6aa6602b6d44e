-- ===== src/McpServer/Audited.antt =====
-- The audit log that the endpoint of onto_platform/mcp_server.py writes.
use lingyunzhi_os_backend.Base.{
  String, ◌≡◌, refl, [], ◌∷◌, ◌++◌, Bool, true, false, ◌||◌, Option, none, some, inl, inr,
  Bool-cases, Result, ok, err, ok_injective,
}
use mathlib.Core.Path.{subst}
use lingyunzhi_os_backend.Dict.{lookup}
use lingyunzhi_os_backend.Access.{Scope, read, TokenLookupResult, Hasher, require_scope}
use lingyunzhi_os_backend.McpServer.{
  Outcome, ok_call, failed_call, forbidden_call, Failure, Database, Request, Response, audited,
  is_aborted, server_error, structured_content, error_response, forbidden_response, or_blank,
  is_below, audit_row, record_audit, responded, handled, call_tool, call_found, dispatch,
  mcp_endpoint,
}
use lingyunzhi_os_backend.McpServer.Calls.{ToolArguments, ToolAnswer, Context}
use lingyunzhi_os_backend.McpServer.Catalog.{Tool, tools}
use lingyunzhi_os_backend.McpServer.Authority.{
  Allowed, nothing, edits, registries_change, tokens_change, connections_change,
}
use lingyunzhi_os_backend.McpServer.Authority.Steps.{Keeps, lookup-Keeps, tools-AllKeep}

-- The outcome and the error code that a response stands for.
abbrev pub Agrees : {A : Type 0} → Response A → Outcome → Option String → Type 0
Agrees (structured_content a) o code = (o ≡ ok_call) × (code ≡ none)
Agrees (error_response c) o code = (o ≡ failed_call) × (code ≡ some c)
Agrees (forbidden_response s) o code = (o ≡ forbidden_call) × (code ≡ some "FORBIDDEN")
Agrees _ o code = ⊥

-- Why the audit record of a call can fail: it raises, or the handler's exception has aborted the
-- transaction.
abbrev pub Unrecorded : {Raised : Type 0} → Bool → Result (Failure Raised) ToolAnswer → Type 0
Unrecorded audit_raises (ok a) = audit_raises ≡ true
Unrecorded audit_raises (err x) = (audit_raises || is_aborted x) ≡ true

-- Either the answer is an internal error, for one of these reasons, and nothing of the call is kept,
-- or the log has one more row, which names the tool and the principal and tells how the call ended.
abbrev pub Logged :
    {Raised : Type 0}
    → Bool
    → Result (Failure Raised) ToolAnswer
    → String
    → TokenLookupResult
    → Database
    → Database × Response ToolAnswer
    → Type 0
Logged audit_raises answer tool p d (e, server_error) = (e ≡ d) × Unrecorded audit_raises answer
Logged audit_raises answer tool p d (e, r) =
    (o : Outcome) × (code : Option String) × (e.audit_log
      ≡ d.audit_log ++ (audit_row tool p o code ∷ []))
    × Agrees r o code

Allowed-audit_log :
    (d : Database) (s : Scope) (e : Database) → Allowed d s e → e.audit_log ≡ d.audit_log
Allowed-audit_log d s e (nothing _) = refl
Allowed-audit_log d s e (edits now registry expected label saved) = refl
Allowed-audit_log d s e (registries_change t) = refl
Allowed-audit_log d s e (tokens_change ts) = refl
Allowed-audit_log d s e (connections_change cs) = refl

module _ {Raised : Type 0} where
  responded-Logged :
      (audit_raises : Bool) (tool : String) (p : TokenLookupResult) (d db : Database)
      (r : Result (Failure Raised) ToolAnswer)
      → db.audit_log ≡ d.audit_log
      → Logged audit_raises r tool p d (responded audit_raises d tool p db r)
  unfolding responded audited record_audit
  responded-Logged true tool p d db (ok a) e = (refl, refl)
  responded-Logged false tool p d db (ok a) e = (ok_call, none, rw e refl, (refl, refl))
  responded-Logged true tool p d db (err x) e = (refl, refl)
  responded-Logged false tool p d db (err x) e = elim (Bool-cases (is_aborted x)) [
    | inl aborted ↦ rw aborted (refl, aborted)
    | inr open_still ↦ rw open_still (failed_call, some _, rw e refl, (refl, refl))
  ]

  raising : (r : Result (Failure Raised) ToolAnswer) → Unrecorded true r
  raising (ok a) = refl
  raising (err x) = refl

  forbidden-Logged :
      (audit_raises : Bool) (r : Result (Failure Raised) ToolAnswer) (spec : Tool Raised)
      (p : TokenLookupResult) (db : Database)
      → Logged audit_raises r spec.name p db (
          audited audit_raises db
            (audit_row spec.name p forbidden_call (some "FORBIDDEN"))
            db
            (forbidden_response spec.scope))
  unfolding audited record_audit
  forbidden-Logged true r spec p db = (refl, raising r)
  forbidden-Logged false r spec p db = (forbidden_call, some "FORBIDDEN", refl, (refl, refl))

  call_tool-Logged :
      (spec : Tool Raised) (p : TokenLookupResult) (audit_raises : Bool)
      (args : ToolArguments Raised) (db : Database)
      → Keeps spec
      → Logged audit_raises
          (spec.handler p args db).answer
          spec.name
          p
          db
          (call_tool spec p audit_raises args db)
  unfolding call_tool handled
  call_tool-Logged spec p audit_raises args db keeps =
      elim (Bool-cases (is_below p.scope spec.scope)) [
        | inl below ↦ rw below (forbidden-Logged audit_raises _ spec p db)
        | inr enough ↦ rw enough (
            responded-Logged audit_raises spec.name p db (spec.handler p args db).database
              (spec.handler p args db).answer (Allowed-audit_log db spec.scope _ (keeps p args db)))
      ]

  -- A call of one of the tools with an accepted token ends in one of two ways. Either one row is
  -- appended to the audit log, which names the tool and the caller's token, label and scope, and whose
  -- outcome and error code are those of the response: ok, the code of the error, or FORBIDDEN. Or the
  -- answer is an internal error of the endpoint, and nothing of the call is kept: the tables and the
  -- log are as they were, but for what others commit during the call; this happens only when the
  -- audit record raises, or when the tool reports the duplicate label of a connection, which has
  -- aborted the transaction.
  pub mcp_endpoint-Logged :
      (c : Context Raised) (hasher : Hasher) (request : Request (ToolArguments Raised))
      (db : Database) {p : TokenLookupResult} {spec : Tool Raised} {db' : Database}
      {r : Response ToolAnswer}
      → request.method ≡ some "tools/call"
      → lookup (or_blank request.name) (tools c) ≡ some spec
      → require_scope hasher read db.tokens request.token ≡ ok p
      → mcp_endpoint (tools c) hasher request db ≡ ok (db', r)
      → Logged request.audit_raises
          (spec.handler p request.arguments db).answer
          spec.name
          p
          db
          (db', r)
  unfolding mcp_endpoint dispatch call_found
  mcp_endpoint-Logged c hasher request db {p = p} {spec = spec} called found accepted e =
      subst
        (Logged request.audit_raises (spec.handler p request.arguments db).answer spec.name p db)
        (ok_injective (rw found at (rw called at (rw accepted at e))))
        (call_tool-Logged spec p request.audit_raises request.arguments db
          (lookup-Keeps (or_blank request.name) (tools-AllKeep c) found))
