-- ===== src/McpServer/Unused.antt =====
-- The guard of `mcp_delete_connection` of onto_platform/mcp_tools_admin.py.
use lingyunzhi_os_backend.Base.{
  String, ◌≡◌, refl, ap, sym, ◌∙◌, Bool, true, false, ◌||◌, List, [], ◌∷◌, Option, none, some, inl,
  inr, Bool-cases, Option-cases, Result, ok, err, bind_ok, ok_injective, arith, ◌==◌,
}
use mathlib.Core.Path.{subst}
use lingyunzhi_os_backend.Dict.{Dict, lookup}
use lingyunzhi_os_backend.ProtoModels.{ObjectTypeDefinition, LinkTypeDefinition, OntologyRegistry}
use lingyunzhi_os_backend.Registry.Checks.Refs.{
  Kind, shared_property_types, interface_types, object_types, link_types, action_types,
}
use lingyunzhi_os_backend.Registry.Crud.Entities.{
  Entity, entry, shared_property_type, interface_type, object_type, link_type, action_type, wrap,
}
use lingyunzhi_os_backend.Registry.Store.{
  Env, staging, production, previous_production, Registries, load,
}
use lingyunzhi_os_backend.Connections.Store.{Connection, find_id, delete_connection_row}
use lingyunzhi_os_backend.Access.{TokenLookupResult}
use lingyunzhi_os_backend.McpServer.{Failure, Database}
use lingyunzhi_os_backend.McpServer.Calls.{ToolArguments, ToolAnswer, Context, given, writes}
use lingyunzhi_os_backend.McpServer.Admin.{
  reads_objects, reads_links, reads_connection, is_in_use, unless_in_use, mcp_delete_connection,
}

-- Whether a mapping of the entity reads through the connection.
abbrev pub reads_through : String → Entity → Bool
reads_through id (object_type obj) = obj.asset_mapping.read_connection_id == id
reads_through id (link_type lt) = lt.asset_mapping.read_connection_id == id
reads_through id _ = false

or_false : (a b : Bool) → (a || b) ≡ false → (a ≡ false) × (b ≡ false)
or_false true b h = absurd cc
or_false false b h = (refl, h)

some_injective {ℓ} : {A : Type ℓ} {a b : A} → ◌≡◌ {A = Option A} (some a) (some b) → a ≡ b
some_injective h = cc

reads_objects-lookup :
    (id rid : String) (d : Dict ObjectTypeDefinition) {obj : ObjectTypeDefinition}
    → reads_objects id d ≡ false
    → lookup rid d ≡ some obj
    → (obj.asset_mapping.read_connection_id == id) ≡ false
unfolding reads_objects lookup
reads_objects-lookup id rid [] h e = absurd cc
reads_objects-lookup id rid ((k, w) ∷ d) {obj} h e =
    let (here, later) =
      or_false (w.asset_mapping.read_connection_id == id) (reads_objects id d) h in
    elim (Bool-cases (k == rid)) [
      | inl same ↦
          subst (λ (x : ObjectTypeDefinition). (x.asset_mapping.read_connection_id == id) ≡ false)
            (some_injective (rw same at e)) here
      | inr other ↦ reads_objects-lookup id rid d later (rw other at e)
    ]

reads_links-lookup :
    (id rid : String) (d : Dict LinkTypeDefinition) {lt : LinkTypeDefinition}
    → reads_links id d ≡ false
    → lookup rid d ≡ some lt
    → (lt.asset_mapping.read_connection_id == id) ≡ false
unfolding reads_links lookup
reads_links-lookup id rid [] h e = absurd cc
reads_links-lookup id rid ((k, w) ∷ d) {lt} h e =
    let (here, later) = or_false (w.asset_mapping.read_connection_id == id) (reads_links id d) h in
    elim (Bool-cases (k == rid)) [
      | inl same ↦
          subst (λ (x : LinkTypeDefinition). (x.asset_mapping.read_connection_id == id) ≡ false)
            (some_injective (rw same at e)) here
      | inr other ↦ reads_links-lookup id rid d later (rw other at e)
    ]

wrapped :
    {A : Type 0} (id : String) (c : A → Entity) (o : Option A) {x : Entity}
    → wrap c o ≡ some x
    → ((a : A) → o ≡ some a → reads_through id (c a) ≡ false)
    → reads_through id x ≡ false
wrapped id c none e h = absurd cc
wrapped id c (some a) e h = subst (λ x. reads_through id x ≡ false) (some_injective e) (h a refl)

entry-reads_through :
    (id : String) (reg : OntologyRegistry) (k : Kind) (rid : String) {x : Entity}
    → reads_connection id reg ≡ false
    → entry reg k rid ≡ some x
    → reads_through id x ≡ false
unfolding reads_connection
entry-reads_through id reg shared_property_types rid h e =
    wrapped id shared_property_type _ e (λ a f. refl)
entry-reads_through id reg interface_types rid h e = wrapped id interface_type _ e (λ a f. refl)
entry-reads_through id reg action_types rid h e = wrapped id action_type _ e (λ a f. refl)
entry-reads_through id reg object_types rid h e =
    let (objects, _) = or_false (reads_objects id reg.object_types) _ h in
    wrapped id object_type _ e (λ a f. reads_objects-lookup id rid reg.object_types objects f)
entry-reads_through id reg link_types rid h e =
    let (_, links) = or_false (reads_objects id reg.object_types) _ h in
    wrapped id link_type _ e (λ a f. reads_links-lookup id rid reg.link_types links f)

-- The same of what was found under an identifier.
abbrev pub reads_at : String → Option Entity → Bool
reads_at id none = false
reads_at id (some x) = reads_through id x

entry-reads_at :
    (id : String) (reg : OntologyRegistry) (k : Kind) (rid : String)
    → reads_connection id reg ≡ false
    → reads_at id (entry reg k rid) ≡ false
entry-reads_at id reg k rid h = elim (Option-cases (entry reg k rid)) [
  | inl absent ↦ rw absent refl
  | inr (x, there) ↦ rw there (entry-reads_through id reg k rid h there)
]

-- The environments that are looked at.
abbrev pub is_current : Env → Bool
is_current staging = true
is_current production = true
is_current previous_production = false

is_in_use-reads_connection :
    (id : String) (t : Registries) (e : Env)
    → is_in_use id t ≡ false
    → is_current e ≡ true
    → reads_connection id (load t e).registry ≡ false
unfolding is_in_use
is_in_use-reads_connection id t staging h current = (or_false _ _ h).0
is_in_use-reads_connection id t production h current = (or_false _ _ h).1
is_in_use-reads_connection id t previous_production h current = absurd cc

err_ok : {E A : Type 0} {e : E} {a : A} → ◌≡◌ {A = Result E A} (err e) (ok a) → ⊥
err_ok h = cc

find_id-delete_connection_row :
    (id : String) (cs : List Connection) → find_id id (delete_connection_row id cs) ≡ none
unfolding find_id delete_connection_row
find_id-delete_connection_row id [] = refl
find_id-delete_connection_row id (c ∷ cs) = ground (arith, find_id-delete_connection_row id cs)

-- What the handler returned came from its last step, and the tables too.
writes-ok :
    {Raised : Type 0} (db : Database) (r : Result (Failure Raised) (Database × ToolAnswer))
    {a : ToolAnswer}
    → (writes db r).answer ≡ ok a
    → r ≡ ok ((writes db r).database, a)
unfolding writes
writes-ok db (ok (db', b)) h = ap (λ x. ok (db', x)) (ok_injective h)
writes-ok db (err e) h = absurd cc

module _ {Raised : Type 0} (c : Context Raised) (p : TokenLookupResult)
    (args : ToolArguments Raised) where
  -- Where the deletion goes through.
  deleted :
      (db d : Database) {a : ToolAnswer}
      → args.connection_uuid ≡ ok args.connection_id
      → unless_in_use c args db ≡ ok (d, a)
      → (is_in_use args.connection_id db.registries ≡ false)
        × (d ≡ record db { connections = delete_connection_row args.connection_id db.connections })
  unfolding unless_in_use given
  deleted db d canonical h = elim (Bool-cases (is_in_use args.connection_id db.registries)) [
    | inl used ↦ absurd (err_ok (rw used at h))
    | inr free ↦ (free, sym (ap (λ q. q.0) (ok_injective (rw canonical at (rw free at h)))))
  ]

  -- If `delete_connection` answers, and the identifier is given as UUIDs are printed, then no object
  -- type and no link type of staging or production reads through the connection, under whatever
  -- identifier it is looked up, the connection is gone, and the registries are as they were.
  pub mcp_delete_connection-ok :
      (db : Database) {a : ToolAnswer}
      → args.connection_uuid ≡ ok args.connection_id
      → (mcp_delete_connection c p args db).answer ≡ ok a
      → ((k : Kind) (rid : String)
          → (reads_at args.connection_id (entry (load db.registries staging).registry k rid)
              ≡ false)
            × (reads_at args.connection_id (entry (load db.registries production).registry k rid)
                ≡ false))
        × (find_id args.connection_id (mcp_delete_connection c p args db).database.connections
            ≡ none)
        × ((mcp_delete_connection c p args db).database.registries ≡ db.registries)
  unfolding mcp_delete_connection
  mcp_delete_connection-ok db canonical h =
      let (_, _, last) = bind_ok (given args.binding) _ (writes-ok db _ h) in
      let (free, left) = deleted db _ canonical last in
      (
        (λ k rid. (
          entry-reads_at args.connection_id (load db.registries staging).registry k rid
              (is_in_use-reads_connection args.connection_id db.registries staging free refl),
          entry-reads_at args.connection_id (load db.registries production).registry k rid
              (is_in_use-reads_connection args.connection_id db.registries production free refl),
        )),
        ap (λ (d : Database). find_id args.connection_id d.connections) left
            ∙ find_id-delete_connection_row args.connection_id db.connections,
        ap (λ (d : Database). d.registries) left,
      )
