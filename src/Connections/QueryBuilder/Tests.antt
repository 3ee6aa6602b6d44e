-- ===== src/Connections/QueryBuilder/Tests.antt =====
-- The second page of a table with three rows, two to a page.
use lingyunzhi_os_backend.Base.{
  String, ◌≡◌, refl, List, [], ◌∷◌, Option, none, some, err, length, take, drop, truthy, false,
}
use lingyunzhi_os_backend.Dict.{Dict, lookup, insert}
use lingyunzhi_os_backend.ProtoModels.{
  PropertyTypeDefinition, ObjectTypeDefinition, OntologyRegistry,
}
use lingyunzhi_os_backend.Registry.Samples.{serial, pump, pump_rid, with_pump}
use lingyunzhi_os_backend.Connections.Store.{Connection, postgres, find_id, get_by_id, get_or_raise}
use lingyunzhi_os_backend.Connections.QueryBuilder.{
  Predicate, OrderBy, Engine, Ask, InstanceData, build_columns, column_map, physical_columns,
  build_like_condition, or_chain, search_predicate, predicate_of, formatted, format_rows,
  sort_found, sort_order_of, unless_refused, require, some_or, from_connection, counting, selecting,
  page_data, paged, query, sort_field_not_found,
}
use lingyunzhi_os_backend.Connections.QueryBuilder.Pages.{restrict, project}

-- Unfolding this unfolds a query.
unfoldable running : Unit {0}
unfolding lookup insert truthy find_id get_by_id get_or_raise build_columns column_map
    physical_columns build_like_condition or_chain search_predicate predicate_of formatted
    format_rows sort_found sort_order_of unless_refused require some_or from_connection counting
    selecting page_data paged query restrict project
running = tt

abbrev site : PropertyTypeDefinition
site = record serial { api_name = "site"; physical_column = "place" }

abbrev bound_pump : ObjectTypeDefinition
bound_pump = record pump {
  property_types = ("serial_no", serial) ∷ ("site", site) ∷ [];
  asset_mapping = record (pump.asset_mapping) {
    read_connection_id = "c";
    read_asset_path = "pumps";
  };
}

abbrev registry : OntologyRegistry
registry = record with_pump { object_types = (pump_rid, bound_pump) ∷ [] }

abbrev warehouse : Connection
warehouse = record {
  id = "c";
  label = "warehouse";
  kind = postgres;
  dsn_encrypted = "";
  last_probe_ok_at = none;
}

-- A table of three columns, one of which is not mapped.
abbrev pump_row : String → String → Dict String
pump_row n p = ("serial", n) ∷ ("weight", "7") ∷ ("place", p) ∷ []

abbrev table : Connection → String → Option Predicate → List (Dict String)
table conn path predicate = pump_row "A" "x" ∷ pump_row "B" "y" ∷ pump_row "C" "z" ∷ []

-- The last serial number first, when an order is asked for.
abbrev ordered : List String → Option OrderBy → List (Dict String)
ordered cs none = project cs (pump_row "A" "x" ∷ pump_row "B" "y" ∷ pump_row "C" "z" ∷ [])
ordered cs (some o) = project cs (pump_row "C" "z" ∷ pump_row "B" "y" ∷ pump_row "A" "x" ∷ [])

abbrev engine : Engine String String
engine = record {
  read_uuid = λ s. some s;
  refuses_count = λ k q. none;
  refuses_select = λ k q. none;
  count = λ conn q. length (table conn q.table q.predicate);
  rows = λ conn q. take q.limit (drop q.offset (ordered q.columns q.order_by));
  lower = λ s. s;
}

abbrev Follows : Option OrderBy → List (Dict String) → Type 0
Follows none xs = Unit
Follows (some o) xs = (cs : List String) × (xs ≡ ordered cs (some o))

abbrev second_page : Ask
second_page = record {
  page = 2;
  page_size = 2;
  search = some "a";
  sort_field = some "serial_no";
  sort_order = "desc";
}

abbrev answer : InstanceData String
answer = record {
  object_type_rid = pump_rid;
  object_type_name = "pump";
  columns =
      record { api_name = "serial_no"; display_name = "serial_no"; physical_column = "serial" }
      ∷ record { api_name = "site"; display_name = "site"; physical_column = "place" }
      ∷ [];
  instances = (("serial_no", some "A") ∷ ("site", some "x") ∷ []) ∷ [];
  total = 3;
  page = 2;
  page_size = 2;
  has_more = false;
}

unsortable :
    query engine registry (warehouse ∷ []) pump_rid (record second_page { sort_field = some "age" })
    ≡ err (sort_field_not_found "age")
unfolding running
unsortable = refl
