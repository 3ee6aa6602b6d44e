-- ===== src/Connections/Tests.antt =====
-- Queries on the sample registry, and the theorems on masking at these inputs.
use lingyunzhi_os_backend.Base.{
  String, ◌≡◌, ◌≤◌, ◌<◌, ◌↔◌, refl, true, false, [], ◌∷◌, ◌++◌, some, ok, truthy, ◌==◌, length,
  take, drop, last,
}
use mathlib.Core.List.{Memᴰ}
use lingyunzhi_os_backend.Dict.{lookup, insert, values}
use lingyunzhi_os_backend.ProtoModels.{
  PropertyTypeDefinition, mask_redact_full, show_last_4, show_first_2, mask_phone_middle,
  restricted,
}
use lingyunzhi_os_backend.Registry.Samples.{serial, with_pump}
use lingyunzhi_os_backend.Connections.Masking.{Text, original, masked, stars, apply_mask, mask_text}
use lingyunzhi_os_backend.Connections.Masking.Disclosure.{
  apply_mask_hides, show_last_4_length, apply_mask_discloses,
}
use lingyunzhi_os_backend.Connections.Masking.Index.{
  order_of, is_stricter, consider, consider_all, object_properties, link_properties, all_properties,
  build_index, highest, highest_from, greater,
}
use lingyunzhi_os_backend.Connections.Masking.Index.Strictest.{build_index-strictest}
use lingyunzhi_os_backend.Connections.Masking.Resolver.{
  Sqlglot, ResolvedColumn, unresolved, entries, found, resolved_as, names, collect_source_columns,
  inner, output_name, resolve_projection, resolve_projections, resolve, outermost, under_with,
  columns_of,
}
use lingyunzhi_os_backend.Connections.Masking.Resolver.Projection.{
  AtLeast, StoredIn, resolve_projection-strictest,
}
use lingyunzhi_os_backend.Connections.DataQuery.{
  by_name_from, resolved_by_name, is_masked, apply_resolved, mask_cell, mask_row, mask_rows, kept,
  query_result, masked_columns, unresolved_columns, is_unresolved,
}
use lingyunzhi_os_backend.Connections.DataQuery.Cells.{
  mask_cell_unique, mask_cell_last_name, query_result_bounded,
}

-- Unfolding this unfolds masking and the end of a query.
unfoldable running : Unit {0}
unfolding truthy lookup insert values apply_mask mask_text is_stricter consider consider_all
    object_properties link_properties all_properties build_index highest highest_from greater
    entries found resolved_as names collect_source_columns inner output_name resolve_projection
    resolve_projections resolve outermost under_with columns_of by_name_from resolved_by_name
    is_masked apply_resolved mask_cell mask_row mask_rows kept query_result masked_columns
    unresolved_columns is_unresolved
running = tt

abbrev same : Text → Text
same t = t

-- "12345678" and "87655678"
abbrev card : Text
card = b'1' ∷ b'2' ∷ b'3' ∷ b'4' ∷ b'5' ∷ b'6' ∷ b'7' ∷ b'8' ∷ []

abbrev other_card : Text
other_card = b'8' ∷ b'7' ∷ b'6' ∷ b'5' ∷ b'5' ∷ b'6' ∷ b'7' ∷ b'8' ∷ []

apply_mask_hides_example :
    apply_mask same (some card) show_last_4 ≡ apply_mask same (some other_card) show_last_4
unfolding running
apply_mask_hides_example = apply_mask_hides same card other_card show_last_4 (λ e. cc e) refl

show_last_4_length_example :
    (length (stars 4 ++ last 4 card) ≡ length card)
    × (last 4 (stars 4 ++ last 4 card) ≡ last 4 card)
unfolding running
show_last_4_length_example = show_last_4_length same card refl

apply_mask_discloses_example :
    (apply_mask same (some (take 4 card)) show_last_4 ≡ masked (take 4 card))
    × (apply_mask same (some (take 2 card)) show_first_2 ≡ masked (take 2 card ++ stars 4))
    × (apply_mask same (some (take 7 card)) mask_phone_middle
        ≡ masked (take 3 card ++ (stars 4 ++ drop 3 (take 7 card))))
apply_mask_discloses_example =
    apply_mask_discloses same (take 2 card) (take 4 card) (take 7 card) refl refl refl

-- A parser that takes a text for the column of that name.
abbrev columns_only : Sqlglot
columns_only = record {
  Node = String;
  ParseError = Unit {0};
  parse_one = λ sql dialect. ok sql;
  is_with = λ n. false;
  is_union = λ n. false;
  is_select = λ n. true;
  is_alias = λ n. false;
  is_column = λ n. true;
  this = λ n. n;
  left = λ n. n;
  expressions = λ n. n ∷ [];
  find_all_columns = λ n. n ∷ [];
  alias_or_name = λ n. n;
  name = λ n. n;
  str = λ n. n;
}

build_index-strictest_example :
    (q : PropertyTypeDefinition) × (lookup "serial" (build_index with_pump) ≡ some q)
    × (order_of serial ≤ order_of q)
unfolding running
build_index-strictest_example = build_index-strictest with_pump serial (Memᴰ.head refl) refl

resolve_projection-strictest_example :
    AtLeast
      (StoredIn with_pump (collect_source_columns columns_only (inner columns_only "serial")))
      serial
      (resolve_projection columns_only (build_index with_pump) "serial")
unfolding running
resolve_projection-strictest_example =
    resolve_projection-strictest columns_only with_pump "serial" serial (Memᴰ.head refl) refl
      (Memᴰ.head refl)

-- `SELECT serial AS x`, masked, and `… AS x` of an expression without a known column.
abbrev masked_x : ResolvedColumn
masked_x = record {
  name = "x";
  sensitivity = restricted;
  masking = mask_redact_full;
  is_resolved = true;
}

only_y : (q : ResolvedColumn) → Memᴰ q (unresolved "y" ∷ []) → (q.name == "x") ≡ false
only_y q (Memᴰ.head e) = rw e refl
only_y q (Memᴰ.tail m) = elim m [ ]

mask_cell_unique_example :
    mask_cell same (resolved_by_name (masked_x ∷ unresolved "y" ∷ [])) "x" (some card)
    ≡ masked (stars 3)
unfolding running
mask_cell_unique_example =
    mask_cell_unique same [] (unresolved "y" ∷ []) masked_x (some card) only_y refl

mask_cell_last_name_example :
    mask_cell same (resolved_by_name (masked_x ∷ unresolved "x" ∷ [])) "x" (some card)
    ≡ original card
unfolding running
mask_cell_last_name_example =
    mask_cell_last_name same (masked_x ∷ []) (unresolved "x") (some card) refl

query_result_bounded_example :
    (length
        (query_result same 1
          (masked_x ∷ [])
          ("x" ∷ [])
          ((some card ∷ []) ∷ (some card ∷ []) ∷ [])).rows
      ≡ 1)
    × (1 ≤ 1)
    × ((true ≡ true) ↔ (1 < 2))
unfolding running
query_result_bounded_example =
    query_result_bounded same 1 (masked_x ∷ []) ("x" ∷ [])
      ((some card ∷ []) ∷ (some card ∷ []) ∷ [])
