-- ===== src/Connections/DataQuery.antt =====
-- `query_sql` of onto_platform/connections/data_query.py from the rows that the database returned to
-- the result: truncation, masking, and the lists of masked and unresolved columns. The rows have a
-- cell for every column name, as a database result has.
pub mod Cells
use lingyunzhi_os_backend.Base.{
  ℕ, String, Bool, true, false, not, ◌&&◌, List, [], ◌∷◌, Option, none, some, ltb, length, take,
  if◌then◌else◌,
}
use lingyunzhi_os_backend.Dict.{Dict, lookup, insert}
use lingyunzhi_os_backend.ProtoModels.{
  MaskingStrategy, mask_none, mask_nullify, mask_redact_full, show_last_4, show_first_2,
  mask_email_domain, mask_email_user, mask_phone_middle,
}
use lingyunzhi_os_backend.Connections.Masking.{Text, Output, null, original, apply_mask}
use lingyunzhi_os_backend.Connections.Masking.Resolver.{ResolvedColumn}

-- `{rc.name: rc for rc in resolved_columns}`, from a dict on
unfoldable pub by_name_from : Dict ResolvedColumn → List ResolvedColumn → Dict ResolvedColumn
by_name_from d [] = d
by_name_from d (rc ∷ rcs) = by_name_from (insert rc.name rc d) rcs

unfoldable pub resolved_by_name : List ResolvedColumn → Dict ResolvedColumn
resolved_by_name rcs = by_name_from [] rcs

-- `masking is not MASK_NONE`
abbrev pub is_masking : MaskingStrategy → Bool
is_masking mask_none = false
is_masking mask_nullify = true
is_masking mask_redact_full = true
is_masking show_last_4 = true
is_masking show_first_2 = true
is_masking mask_email_domain = true
is_masking mask_email_user = true
is_masking mask_phone_middle = true

-- `rc is not None and rc.is_resolved and rc.masking is not MaskingStrategy.MASK_NONE`
unfoldable pub is_masked : Option ResolvedColumn → Bool
is_masked none = false
is_masked (some rc) = rc.is_resolved && is_masking rc.masking

-- `rc is None or not rc.is_resolved`
unfoldable pub is_unresolved : Option ResolvedColumn → Bool
is_unresolved none = true
is_unresolved (some rc) = not rc.is_resolved

-- The column names of the result that are masked and that are unresolved.
unfoldable pub masked_columns : Dict ResolvedColumn → List String → List String
masked_columns by_name [] = []
masked_columns by_name (cn ∷ cns) =
    let rest = masked_columns by_name cns in
    if is_masked (lookup cn by_name) then cn ∷ rest else rest

unfoldable pub unresolved_columns : Dict ResolvedColumn → List String → List String
unresolved_columns by_name [] = []
unresolved_columns by_name (cn ∷ cns) =
    let rest = unresolved_columns by_name cns in
    if is_unresolved (lookup cn by_name) then cn ∷ rest else rest

-- A cell that is passed on as it is.
abbrev pub plain {ℓ} : {V : Type ℓ} → Option V → Output V
plain none = null
plain (some v) = original v

-- `columns` holds the names of the columns; the other two fields of a column are always `None`.
pub record QueryResult {ℓ} (V : Type ℓ) : Type ℓ where
  pub columns : List String
  pub rows : List (List (Output V))
  pub row_count : ℕ
  pub truncated : Bool
  pub masked_names : List String
  pub unresolved_names : List String

-- `rows_raw[:max_rows]` when there are more
unfoldable pub kept {ℓ} : {R : Type ℓ} → ℕ → List R → List R
kept max_rows rows_raw = if ltb max_rows (length rows_raw) then take max_rows rows_raw else rows_raw

module _ {ℓ} {V : Type ℓ} (str : V → Text) where
  unfoldable pub apply_resolved : Option ResolvedColumn → Option V → Output V
  apply_resolved none v = plain v
  apply_resolved (some rc) v = if is_masked (some rc) then apply_mask str v rc.masking else plain v

  unfoldable pub mask_cell : Dict ResolvedColumn → String → Option V → Output V
  mask_cell by_name cn v = apply_resolved (lookup cn by_name) v

  unfoldable pub mask_row : Dict ResolvedColumn → List String → List (Option V) → List (Output V)
  mask_row by_name [] vs = []
  mask_row by_name (cn ∷ cns) [] = []
  mask_row by_name (cn ∷ cns) (v ∷ vs) = mask_cell by_name cn v ∷ mask_row by_name cns vs

  unfoldable pub mask_rows :
      Dict ResolvedColumn → List String → List (List (Option V)) → List (List (Output V))
  mask_rows by_name cns [] = []
  mask_rows by_name cns (r ∷ rs) = mask_row by_name cns r ∷ mask_rows by_name cns rs

  -- The end of `query_sql`, on the columns of the resolver and the result of the database.
  unfoldable pub query_result :
      ℕ → List ResolvedColumn → List String → List (List (Option V)) → QueryResult V
  query_result max_rows resolved_columns column_names rows_raw =
      let by_name = resolved_by_name resolved_columns in
      let out_rows = mask_rows by_name column_names (kept max_rows rows_raw) in
      record {
        columns = column_names;
        rows = out_rows;
        row_count = length out_rows;
        truncated = ltb max_rows (length rows_raw);
        masked_names = masked_columns by_name column_names;
        unresolved_names = unresolved_columns by_name column_names;
      }
