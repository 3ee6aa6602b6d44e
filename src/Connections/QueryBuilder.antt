-- ===== src/Connections/QueryBuilder.antt =====
-- `InstanceQueryBuilder.query` of onto_platform/connections/query_builder.py, and the queries that
-- onto_platform/connections/dialect_engine.py builds. The text that sqlglot makes of a query, the
-- gate's verdict on it and the database's answer are parameters. A page number or size below one
-- counts as zero.
pub mod Pages
mod Tests
use lingyunzhi_os_backend.Base.{
  ℕ, suc, ◌-◌, ◌*◌, String, Bool, true, false, ◌<>◌, List, [], ◌∷◌, Option, none, some, Result, ok,
  err, ◌>>=◌, truthy, ltb, leb, ◌==◌, if◌then◌else◌,
}
use lingyunzhi_os_backend.Dict.{Dict, lookup, insert}
use lingyunzhi_os_backend.ProtoModels.{
  PropertyTypeDefinition, ObjectTypeDefinition, AssetMapping, OntologyRegistry,
}
use lingyunzhi_os_backend.Connections.Store.{ConnectionKind, Connection, ConnectionError, get_by_id}

pub record InstanceColumn : Type 0 where
  pub api_name : String
  pub display_name : String
  pub physical_column : String

-- A predicate of sqlglot, as the code makes them.
pub data Predicate : Type 0 where
  -- `ILIKE` on a quoted column
  ilike : String → String → Predicate
  or_of : Predicate → Predicate → Predicate

-- A column and whether it is descending.
pub record OrderBy : Type 0 where
  pub column : String
  pub descending : Bool

-- `SELECT COUNT(*)`
pub record CountQuery : Type 0 where
  pub table : String
  pub predicate : Option Predicate

pub record SelectQuery : Type 0 where
  pub columns : List String
  pub table : String
  pub predicate : Option Predicate
  pub order_by : Option OrderBy
  pub limit : ℕ
  pub offset : ℕ

pub record InstanceData (V : Type 0) : Type 0 where
  pub object_type_rid : String
  pub object_type_name : String
  pub columns : List InstanceColumn
  -- `data`
  pub instances : List (Dict (Option V))
  pub total : ℕ
  pub page : ℕ
  pub page_size : ℕ
  pub has_more : Bool

-- The reasons of `QueryBuildError`, and what else is raised.
pub data QueryError (Raised : Type 0) : Type 0 where
  type_not_found no_connection no_asset_path no_columns : QueryError Raised
  sort_field_not_found : String → QueryError Raised
  gate_rejected : Raised → QueryError Raised
  not_a_uuid : String → QueryError Raised
  connection_failed : ConnectionError Raised → QueryError Raised

-- What the database and the gate do with the queries.
pub record Engine (Raised V : Type 0) : Type 0 where
  pub read_uuid : String → Option String
  pub refuses_count : ConnectionKind → CountQuery → Option Raised
  pub refuses_select : ConnectionKind → SelectQuery → Option Raised
  pub count : Connection → CountQuery → ℕ
  pub rows : Connection → SelectQuery → List (Dict V)
  pub lower : String → String

pub record Ask : Type 0 where
  pub page : ℕ
  pub page_size : ℕ
  pub search : Option String
  pub sort_field : Option String
  pub sort_order : String

abbrev or_text : String → String → String
or_text a b = if truthy a then a else b

-- The columns of `_build_columns`
unfoldable pub build_columns : Dict PropertyTypeDefinition → List InstanceColumn
build_columns [] = []
build_columns ((k, prop) ∷ d) =
    let rest = build_columns d in
    if truthy prop.physical_column
    then record {
      api_name = prop.api_name;
      display_name = or_text prop.display_name prop.api_name;
      physical_column = prop.physical_column;
    }
      ∷ rest
    else rest

-- The map of `_build_columns`, where the last property of an api_name wins.
unfoldable pub column_map : Dict String → List InstanceColumn → Dict String
column_map m [] = m
column_map m (c ∷ cs) = column_map (insert c.api_name c.physical_column m) cs

unfoldable pub physical_columns : List InstanceColumn → List String
physical_columns [] = []
physical_columns (c ∷ cs) = c.physical_column ∷ physical_columns cs

-- `DialectEngine.build_like_condition`
unfoldable pub build_like_condition : String → String → Predicate
build_like_condition column keyword = ilike column ("%" <> keyword <> "%")

-- The loop that chains the conditions with OR.
unfoldable pub or_chain : String → Predicate → List InstanceColumn → Predicate
or_chain keyword p [] = p
or_chain keyword p (c ∷ cs) =
    or_chain keyword (or_of p (build_like_condition c.physical_column keyword)) cs

unfoldable pub search_predicate : String → List InstanceColumn → Option Predicate
search_predicate keyword [] = none
search_predicate keyword (c ∷ cs) =
    some (or_chain keyword (build_like_condition c.physical_column keyword) cs)

-- `if search`
unfoldable pub predicate_of : Option String → List InstanceColumn → Option Predicate
predicate_of none cs = none
predicate_of (some s) cs = if truthy s then search_predicate s cs else none

-- `max(1, page)` and `min(max(1, page_size), 100)`
abbrev pub clamp_page : ℕ → ℕ
clamp_page page = if leb 1 page then page else 1

abbrev pub clamp_page_size : ℕ → ℕ
clamp_page_size page_size =
    let at_least_one = if leb 1 page_size then page_size else 1 in
    if ltb 100 at_least_one then 100 else at_least_one

-- `{c.api_name: row.get(c.physical_column) for c in columns}`
unfoldable pub formatted {ℓ} :
    {V : Type ℓ} → Dict V → Dict (Option V) → List InstanceColumn → Dict (Option V)
formatted row d [] = d
formatted row d (c ∷ cs) = formatted row (insert c.api_name (lookup c.physical_column row) d) cs

unfoldable pub format_rows {ℓ} :
    {V : Type ℓ} → List InstanceColumn → List (Dict V) → List (Dict (Option V))
format_rows cs [] = []
format_rows cs (row ∷ rows) = formatted row [] cs ∷ format_rows cs rows

-- `build_count` and `build_select` with the search's predicate
unfoldable pub counting : ObjectTypeDefinition → List InstanceColumn → Ask → CountQuery
counting obj columns ask = record {
  table = obj.asset_mapping.read_asset_path;
  predicate = predicate_of ask.search columns;
}

unfoldable pub selecting :
    ObjectTypeDefinition → List InstanceColumn → Ask → Option OrderBy → SelectQuery
selecting obj columns ask order_by = record {
  columns = physical_columns columns;
  table = obj.asset_mapping.read_asset_path;
  predicate = predicate_of ask.search columns;
  order_by = order_by;
  limit = clamp_page_size ask.page_size;
  offset = (clamp_page ask.page - 1) * clamp_page_size ask.page_size;
}

abbrev pub is_nonempty {ℓ} : {A : Type ℓ} → List A → Bool
is_nonempty [] = false
is_nonempty (x ∷ xs) = true

module _ {Raised V : Type 0} (engine : Engine Raised V) where
  unfoldable pub sort_found :
      String → String → Option String → Result (QueryError Raised) (Option OrderBy)
  sort_found field order none = err (sort_field_not_found field)
  sort_found field order (some physical) =
      ok (some (record { column = physical; descending = engine.lower order == "desc" }))

  -- `if sort_field`
  unfoldable pub sort_order_of :
      Option String → String → Dict String → Result (QueryError Raised) (Option OrderBy)
  sort_order_of none order m = ok none
  sort_order_of (some field) order m =
      if truthy field then sort_found field order (lookup field m) else ok none

  unfoldable pub unless_refused : Option Raised → Result (QueryError Raised) (Unit {0})
  unless_refused none = ok tt
  unless_refused (some e) = err (gate_rejected e)

  unfoldable pub require : QueryError Raised → Bool → Result (QueryError Raised) (Unit {0})
  require e true = ok tt
  require e false = err e

  unfoldable pub some_or {ℓ} :
      {A : Type ℓ} → QueryError Raised → Option A → Result (QueryError Raised) A
  some_or e none = err e
  some_or e (some a) = ok a

  unfoldable pub from_connection :
      Result (ConnectionError Raised) Connection → Result (QueryError Raised) Connection
  from_connection (ok c) = ok c
  from_connection (err e) = err (connection_failed e)

  -- The result from the answers to the two queries.
  unfoldable pub page_data :
      String
      → ObjectTypeDefinition
      → Connection
      → List InstanceColumn
      → Ask
      → Option OrderBy
      → InstanceData V
  page_data rid obj conn columns ask order_by =
      let page = clamp_page ask.page in
      let page_size = clamp_page_size ask.page_size in
      let total = engine.count conn (counting obj columns ask) in
      record {
        object_type_rid = rid;
        object_type_name = or_text obj.display_name obj.api_name;
        columns = columns;
        instances = format_rows columns (engine.rows conn (selecting obj columns ask order_by));
        total = total;
        page = page;
        page_size = page_size;
        has_more = ltb (page * page_size) total;
      }

  -- From the columns on: the gate on both queries, and the result.
  unfoldable pub paged :
      String
      → ObjectTypeDefinition
      → Connection
      → List InstanceColumn
      → Ask
      → Option OrderBy
      → Result (QueryError Raised) (InstanceData V)
  paged rid obj conn columns ask order_by =
      unless_refused (engine.refuses_count conn.kind (counting obj columns ask)) >>= λ _.
      unless_refused (engine.refuses_select conn.kind (selecting obj columns ask order_by)) >>= λ _.
      ok (page_data rid obj conn columns ask order_by)

  unfoldable pub query :
      OntologyRegistry
      → List Connection
      → String
      → Ask
      → Result (QueryError Raised) (InstanceData V)
  query registry connections rid ask =
      some_or type_not_found (lookup rid registry.object_types) >>= λ obj.
      require no_connection (truthy obj.asset_mapping.read_connection_id) >>= λ _.
      require no_asset_path (truthy obj.asset_mapping.read_asset_path) >>= λ _.
      some_or (not_a_uuid obj.asset_mapping.read_connection_id)
        (engine.read_uuid obj.asset_mapping.read_connection_id)
      >>= λ id. from_connection (get_by_id id connections) >>= λ conn.
          let columns = build_columns obj.property_types in
          require no_columns (is_nonempty columns) >>= λ _.
          sort_order_of ask.sort_field ask.sort_order (column_map [] columns) >>= λ order_by.
          paged rid obj conn columns ask order_by
