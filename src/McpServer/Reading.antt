-- ===== src/McpServer/Reading.antt =====
-- The tools of onto_platform/mcp_tools_read.py, and `describe_bound_asset` of
-- onto_platform/connections/data_query.py. An attribute of a registry that a call of
-- `find_by_api_name` names is one of the five maps or nothing.
use lingyunzhi_os_backend.Base.{
  ℕ, String, Bool, true, not, ◌||◌, ◌<>◌, List, [], ◌∷◌, Option, none, some, Result, ok, err, ◌>>=◌,
  truthy, ltb, nat_eq, ◌==◌, if◌then◌else◌,
}
use lingyunzhi_os_backend.Dict.{Dict, lookup}
use lingyunzhi_os_backend.ProtoModels.{
  OntologyRegistry, AssetMapping, LifecycleStatus, PropertyTypeDefinition,
  SharedPropertyTypeDefinition, InterfaceTypeDefinition, ObjectTypeDefinition, LinkTypeDefinition,
  ActionTypeDefinition,
}
use lingyunzhi_os_backend.Registry.Checks.Refs.{
  Kind, shared_property_types, interface_types, object_types, link_types, action_types,
}
use lingyunzhi_os_backend.Registry.Crud.Entities.{Entity, entry}
use lingyunzhi_os_backend.Registry.Crud.Entities
use lingyunzhi_os_backend.Registry.Store.{production, load}
use lingyunzhi_os_backend.Connections.Store.{get_by_id}
use lingyunzhi_os_backend.Access.{TokenLookupResult}
use lingyunzhi_os_backend.McpServer.{
  Failure, missing_key, bound_asset_not_found, asset_unbound, Database, Handled,
}
use lingyunzhi_os_backend.McpServer.Calls.{
  ToolArguments, Compact, BoundColumn, BoundAsset, ToolAnswer, identity, whole_registry, items,
  entity, bound_asset, query_answer, Context, given, from_connection, only_answers,
}

-- `whoami` of mcp_server.py
unfoldable pub whoami :
    {Raised : Type 0}
    → TokenLookupResult
    → ToolArguments Raised
    → Database
    → Handled Raised ToolAnswer
whoami principal args db =
    only_answers db (given args.binding >>= λ _. ok (identity principal.label principal.scope))

-- The entries of a map as listings read them.
unfoldable pub compacts : {V : Type 0} → (V → Compact) → Dict V → List Compact
compacts f [] = []
compacts f ((k, v) ∷ d) = f v ∷ compacts f d

abbrev compact : String → String → String → LifecycleStatus → Compact
compact rid api_name display_name status = record {
  rid = rid;
  api_name = api_name;
  display_name = display_name;
  lifecycle_status = status;
}

-- `getattr(snap.registry, field).values()`
abbrev pub all_compact : OntologyRegistry → Kind → List Compact
all_compact reg shared_property_types =
    compacts
      (λ (v : SharedPropertyTypeDefinition).
        compact v.rid v.api_name v.display_name v.lifecycle_status)
      reg.shared_property_types
all_compact reg interface_types =
    compacts
      (λ (v : InterfaceTypeDefinition). compact v.rid v.api_name v.display_name v.lifecycle_status)
      reg.interface_types
all_compact reg object_types =
    compacts
      (λ (v : ObjectTypeDefinition). compact v.rid v.api_name v.display_name v.lifecycle_status)
      reg.object_types
all_compact reg link_types =
    compacts
      (λ (v : LinkTypeDefinition). compact v.rid v.api_name v.display_name v.lifecycle_status)
      reg.link_types
all_compact reg action_types =
    compacts
      (λ (v : ActionTypeDefinition). compact v.rid v.api_name v.display_name v.lifecycle_status)
      reg.action_types

-- `_matches`
unfoldable pub matches : (String → String → Bool) → Option String → Compact → Bool
matches is_within none v = true
matches is_within (some needle) v =
    not (truthy needle) || is_within needle v.api_name || is_within needle v.display_name

-- `_list_compact`
unfoldable pub list_compact : (String → String → Bool) → Option String → List Compact → List Compact
list_compact is_within filter [] = []
list_compact is_within filter (v ∷ vs) =
    let rest = list_compact is_within filter vs in
    if matches is_within filter v then v ∷ rest else rest

abbrev pub kinds : List Kind
kinds = shared_property_types ∷ interface_types ∷ object_types ∷ link_types ∷ action_types ∷ []

abbrev or_else {ℓ} : {A : Type ℓ} → Option A → Option A → Option A
or_else none b = b
or_else (some a) b = some a

-- The loop of `get_entity`
unfoldable pub entity_at : OntologyRegistry → String → List Kind → Option Entity
entity_at reg rid [] = none
entity_at reg rid (k ∷ ks) = or_else (entry reg k rid) (entity_at reg rid ks)

-- The first value of a map with an api_name.
unfoldable pub first_named :
    {V : Type 0} → (V → String) → (V → Entity) → String → Dict V → Option Entity
first_named name wrapped api_name [] = none
first_named name wrapped api_name ((k, v) ∷ d) =
    let rest = first_named name wrapped api_name d in
    if name v == api_name then some (wrapped v) else rest

abbrev pub named_in : OntologyRegistry → String → Kind → Option Entity
named_in reg n shared_property_types =
    first_named (λ (v : SharedPropertyTypeDefinition). v.api_name) Entities.shared_property_type n
      reg.shared_property_types
named_in reg n interface_types =
    first_named (λ (v : InterfaceTypeDefinition). v.api_name) Entities.interface_type n
      reg.interface_types
named_in reg n object_types =
    first_named (λ (v : ObjectTypeDefinition). v.api_name) Entities.object_type n reg.object_types
named_in reg n link_types =
    first_named (λ (v : LinkTypeDefinition). v.api_name) Entities.link_type n reg.link_types
named_in reg n action_types =
    first_named (λ (v : ActionTypeDefinition). v.api_name) Entities.action_type n reg.action_types

-- The loops of `find_by_api_name`
unfoldable pub entity_named : OntologyRegistry → String → List Kind → Option Entity
entity_named reg n [] = none
entity_named reg n (k ∷ ks) = or_else (named_in reg n k) (entity_named reg n ks)

-- `(kind + "s",)`
unfoldable pub kind_named : String → List Kind
kind_named s =
    if s == "shared_property_types"
    then shared_property_types ∷ []
    else if s == "interface_types"
    then interface_types ∷ []
    else if s == "object_types"
    then object_types ∷ []
    else if s == "link_types"
    then link_types ∷ []
    else if s == "action_types"
    then action_types ∷ []
    else []

unfoldable pub kinds_of : Option String → List Kind
kinds_of none = kinds
kinds_of (some kind) = if truthy kind then kind_named (kind <> "s") else kinds

unfoldable pub bound_columns : Dict PropertyTypeDefinition → List BoundColumn
bound_columns [] = []
bound_columns ((k, pt) ∷ d) =
    record {
      api_name = pt.api_name;
      physical_column = pt.physical_column;
      data_type = pt.data_type;
      sensitivity = pt.compliance.sensitivity;
      masking_strategy = pt.compliance.masking;
      property_rid = pt.rid;
    }
    ∷ bound_columns d

-- `a or b`
abbrev pub or_zero : Option ℕ → ℕ → ℕ
or_zero none b = b
or_zero (some n) b = if nat_eq n 0 then b else n

-- `min(a, b)`
abbrev pub min : ℕ → ℕ → ℕ
min a b = if ltb b a then b else a

module _ {Raised : Type 0} where
  unfoldable pub found_or {ℓ} : {A : Type ℓ} → Failure Raised → Option A → Result (Failure Raised) A
  found_or e none = err e
  found_or e (some a) = ok a

  unfoldable pub described :
      String → AssetMapping → Dict PropertyTypeDefinition → Result (Failure Raised) BoundAsset
  described rid am property_types =
      if truthy am.read_connection_id || truthy am.read_asset_path
      then ok (record {
        rid = rid;
        connection_id = am.read_connection_id;
        asset_path = am.read_asset_path;
        columns = bound_columns property_types;
      })
      else err (asset_unbound rid)

  unfoldable pub described_entity :
      String
      → Option ObjectTypeDefinition
      → Option LinkTypeDefinition
      → Result (Failure Raised) BoundAsset
  described_entity rid (some obj) lt = described rid obj.asset_mapping obj.property_types
  described_entity rid none (some lt) = described rid lt.asset_mapping lt.property_types
  described_entity rid none none = err (bound_asset_not_found rid)

  unfoldable pub describe_bound_asset :
      OntologyRegistry → String → Result (Failure Raised) BoundAsset
  describe_bound_asset reg rid =
      described_entity rid (lookup rid reg.object_types) (lookup rid reg.link_types)

  module _ (c : Context Raised) where
    unfoldable pub get_registry :
        TokenLookupResult → ToolArguments Raised → Database → Handled Raised ToolAnswer
    get_registry principal args db = only_answers db (
        given args.binding >>= λ _.
        given args.env >>= λ env. ok (whole_registry (load db.registries env).registry))

    -- `_make_lister`
    unfoldable pub lister :
        Kind → TokenLookupResult → ToolArguments Raised → Database → Handled Raised ToolAnswer
    lister kind principal args db = only_answers db (
        given args.binding >>= λ _. given args.env >>= λ env. ok (
          items (
            list_compact c.is_within args.filter
              (all_compact (load db.registries env).registry kind))))

    unfoldable pub get_entity :
        TokenLookupResult → ToolArguments Raised → Database → Handled Raised ToolAnswer
    get_entity principal args db = only_answers db (
        given args.binding >>= λ _. given args.env >>= λ env.
        found_or (missing_key args.rid) (entity_at (load db.registries env).registry args.rid kinds)
        >>= λ e. ok (entity e))

    unfoldable pub find_by_api_name :
        TokenLookupResult → ToolArguments Raised → Database → Handled Raised ToolAnswer
    find_by_api_name principal args db = only_answers db (
        given args.binding >>= λ _. given args.env >>= λ env.
        found_or (missing_key args.api_name)
          (entity_named (load db.registries env).registry args.api_name (kinds_of args.kind))
        >>= λ e. ok (entity e))

    unfoldable pub mcp_describe_bound_asset :
        TokenLookupResult → ToolArguments Raised → Database → Handled Raised ToolAnswer
    mcp_describe_bound_asset principal args db = only_answers db (
        given args.binding >>= λ _. given args.env >>= λ env.
        describe_bound_asset (load db.registries env).registry args.rid >>= λ b. ok (bound_asset b))

    unfoldable pub mcp_query_sql :
        TokenLookupResult → ToolArguments Raised → Database → Handled Raised ToolAnswer
    mcp_query_sql principal args db = only_answers db (
        given args.binding >>= λ _. given args.connection_uuid >>= λ cid.
        from_connection (get_by_id cid db.connections) >>= λ conn.
        c.query (load db.registries production).registry conn args.sql
          (min (or_zero args.max_rows c.query_default_max_rows) c.query_max_rows_cap)
          (min (or_zero args.timeout_ms c.query_default_timeout_ms) c.query_timeout_ms_cap)
        >>= λ r. ok (query_answer r))
