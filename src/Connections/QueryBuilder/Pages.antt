-- ===== src/Connections/QueryBuilder/Pages.antt =====
-- What a page of `InstanceQueryBuilder.query` in onto_platform/connections/query_builder.py shows of
-- the rows of a table.
use lingyunzhi_os_backend.Base.{
  ◌-◌, ◌*◌, ◌≤◌, String, ◌≡◌, List, [], ◌∷◌, ◌++◌, Option, none, some, Result, ok, length, take,
  drop,
}
use mathlib.Core.List.{Permᴰ}
use lingyunzhi_os_backend.Dict.{Dict, lookup}
use lingyunzhi_os_backend.ProtoModels.{ObjectTypeDefinition, OntologyRegistry}
use lingyunzhi_os_backend.Connections.Store.{Connection, ConnectionError, get_by_id}
use lingyunzhi_os_backend.Connections.QueryBuilder.{
  Predicate, OrderBy, CountQuery, SelectQuery, InstanceData, Engine, Ask, predicate_of, format_rows,
  is_nonempty, sort_order_of, build_columns, column_map, physical_columns,
}

-- The columns of a row that a SELECT names.
abbrev pub kept_value {ℓ} : {V : Type ℓ} → String → Option V → Dict V → Dict V
kept_value c none row = row
kept_value c (some v) row = (c, v) ∷ row

unfoldable pub restrict {ℓ} : {V : Type ℓ} → List String → Dict V → Dict V
restrict [] row = []
restrict (c ∷ cs) row = kept_value c (lookup c row) (restrict cs row)

unfoldable pub project {ℓ} : {V : Type ℓ} → List String → List (Dict V) → List (Dict V)
project cs [] = []
project cs (row ∷ rows) = restrict cs row ∷ project cs rows

-- What a database does with the queries: `all` has the rows of a table that match, `follows` says that
-- rows are in the order that is asked for. COUNT counts the matching rows; a SELECT takes their
-- columns that it names, puts them in some order that follows the one asked for, if any, and cuts a
-- part out by LIMIT and OFFSET. Two queries need not choose the same order.
pub record Answers {Raised V : Type 0} (engine : Engine Raised V)
    (all : Connection → String → Option Predicate → List (Dict V))
    (follows : Option OrderBy → List (Dict V) → Type 0) : Type 0 where
  pub counted :
      (conn : Connection) (q : CountQuery)
      → engine.count conn q ≡ length (all conn q.table q.predicate)
  pub selected :
      (conn : Connection) (q : SelectQuery)
      → (xs : List (Dict V)) × Permᴰ xs (project q.columns (all conn q.table q.predicate))
        × follows q.order_by xs
        × (engine.rows conn q ≡ take q.limit (drop q.offset xs))

module _ {V : Type 0} where
  -- The rows before the page, the page, and the rows behind it; there are rows behind it exactly when
  -- `has_more` says so.
  abbrev pub IsPage : List (Dict V) → InstanceData V → Type 0
  IsPage xs d =
      (d.total ≡ length xs)
      × (format_rows d.columns xs
          ≡ format_rows d.columns (take ((d.page - 1) * d.page_size) xs)
            ++ (d.instances ++ format_rows d.columns (drop (d.page * d.page_size) xs)))
      × (d.has_more ≡ is_nonempty (drop (d.page * d.page_size) xs))
      × (1 ≤ d.page)
      × (1 ≤ d.page_size)
      × (d.page_size ≤ 100)

module _ {Raised V : Type 0} (engine : Engine Raised V)
    (all : Connection → String → Option Predicate → List (Dict V))
    (follows : Option OrderBy → List (Dict V) → Type 0) where
  -- The matching rows, with the columns that are asked for, in an order that is asked for, of which
  -- the result shows a page.
  abbrev pub ShowsRows :
      ObjectTypeDefinition → Connection → Ask → Option OrderBy → InstanceData V → Type 0
  ShowsRows obj conn ask order_by d =
      let columns = build_columns obj.property_types in
      (xs : List (Dict V)) × (d.columns ≡ columns)
      × Permᴰ xs (
          project (physical_columns columns)
            (all conn obj.asset_mapping.read_asset_path (predicate_of ask.search columns)))
      × follows order_by xs
      × IsPage xs d

  -- What the result of a query shows of the mapped table of its object type.
  abbrev pub Shows : OntologyRegistry → List Connection → String → Ask → InstanceData V → Type 0
  Shows registry connections rid ask d =
      (obj : ObjectTypeDefinition) × (id : String) × (conn : Connection) × (order_by : Option
        OrderBy)
      × (lookup rid registry.object_types ≡ some obj)
      × (engine.read_uuid obj.asset_mapping.read_connection_id ≡ some id)
      × (◌≡◌ {A = Result (ConnectionError Raised) Connection} (get_by_id id connections) (ok conn))
      × (sort_order_of engine ask.sort_field ask.sort_order
            (column_map [] (build_columns obj.property_types))
          ≡ ok order_by)
      × ShowsRows obj conn ask order_by d
