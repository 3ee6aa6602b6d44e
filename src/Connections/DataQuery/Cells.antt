-- ===== src/Connections/DataQuery/Cells.antt =====
-- Which mask the cells of a query result get (onto_platform/connections/data_query.py).
use lingyunzhi_os_backend.Base.{
  ℕ, String, ◌≡◌, ◌≤◌, ◌<◌, ◌↔◌, refl, inl, inr, true, false, List, [], ◌∷◌, ◌++◌, Option, some,
  arith, ltb, Bool-cases, length, length-take, ◌==◌, eq_refl,
}
use mathlib.Core.List.{Memᴰ}
use lingyunzhi_os_backend.Dict.{Dict, lookup, insert, lookup-insert}
use lingyunzhi_os_backend.Connections.Masking.{Text, apply_mask}
use lingyunzhi_os_backend.Connections.Masking.Resolver.{ResolvedColumn}
use lingyunzhi_os_backend.Connections.DataQuery.{
  by_name_from, resolved_by_name, is_masked, apply_resolved, mask_cell, mask_rows, kept,
  query_result, plain,
}

by_name_from-append :
    (d : Dict ResolvedColumn) (rcs : List ResolvedColumn) (rc : ResolvedColumn)
    → by_name_from d (rcs ++ (rc ∷ [])) ≡ insert rc.name rc (by_name_from d rcs)
unfolding by_name_from
by_name_from-append d [] rc = refl
by_name_from-append d (q ∷ rcs) rc = by_name_from-append (insert q.name q d) rcs rc

-- No column of the list has the name.
abbrev pub Absent : String → List ResolvedColumn → Type 0
Absent n rcs = (q : ResolvedColumn) → Memᴰ q rcs → (q.name == n) ≡ false

by_name_from-Absent :
    (d : Dict ResolvedColumn) (rcs : List ResolvedColumn) (n : String)
    → Absent n rcs
    → lookup n (by_name_from d rcs) ≡ lookup n d
unfolding by_name_from
by_name_from-Absent d [] n absent = refl
by_name_from-Absent d (q ∷ rcs) n absent =
    rw (by_name_from-Absent (insert q.name q d) rcs n (λ p m. absent p (Memᴰ.tail m)))
      (rw lookup-insert (rw (absent q (Memᴰ.head refl)) refl))

by_name_from_unique :
    (d : Dict ResolvedColumn) (before after : List ResolvedColumn) (rc : ResolvedColumn)
    → Absent rc.name after
    → lookup rc.name (by_name_from d (before ++ (rc ∷ after))) ≡ some rc
unfolding by_name_from
by_name_from_unique d [] after rc absent =
    rw (by_name_from-Absent (insert rc.name rc d) after rc.name absent)
      (rw lookup-insert (rw eq_refl refl))
by_name_from_unique d (q ∷ before) after rc absent =
    by_name_from_unique (insert q.name q d) before after rc absent

length-kept {ℓ} : {R : Type ℓ} (n : ℕ) (rs : List R) → length (kept n rs) ≤ n
unfolding kept
length-kept n rs = elim (Bool-cases (ltb n (length rs))) [
  | inl more ↦ rw more (length-take n rs)
  | inr all ↦ rw all (ground arith)
]

module _ {ℓ} {V : Type ℓ} (str : V → Text) where
  -- When no later projection has the output name of a resolved, masked projection, every cell under
  -- that name comes out masked by its strategy.
  pub mask_cell_unique :
      (before after : List ResolvedColumn) (rc : ResolvedColumn) (v : Option V)
      → Absent rc.name after
      → is_masked (some rc) ≡ true
      → mask_cell str (resolved_by_name (before ++ (rc ∷ after))) rc.name v
        ≡ apply_mask str v rc.masking
  unfolding mask_cell resolved_by_name apply_resolved
  mask_cell_unique before after rc v absent is =
      rw (by_name_from_unique [] before after rc absent) (rw is refl)

  -- When the last projection is not masked, every cell under its output name comes out as it is,
  -- also the cells of earlier projections with the same output name, whatever their strategy.
  pub mask_cell_last_name :
      (before : List ResolvedColumn) (rc : ResolvedColumn) (v : Option V)
      → is_masked (some rc) ≡ false
      → mask_cell str (resolved_by_name (before ++ (rc ∷ []))) rc.name v ≡ plain v
  unfolding mask_cell resolved_by_name apply_resolved
  mask_cell_last_name before rc v not_masked =
      rw (by_name_from_unique [] before [] rc (λ q m. elim m [ ])) (rw not_masked refl)

  length-mask_rows :
      (d : Dict ResolvedColumn) (cns : List String) (rs : List (List (Option V)))
      → length (mask_rows str d cns rs) ≡ length rs
  unfolding mask_rows
  length-mask_rows d cns [] = refl
  length-mask_rows d cns (r ∷ rs) = rw (length-mask_rows d cns rs) refl

  -- The result has as many rows as it says, at most `max_rows`; it is truncated exactly when the database returned more than `max_rows` rows.
  pub query_result_bounded :
      (max_rows : ℕ) (rcs : List ResolvedColumn) (cns : List String) (raw : List (List (Option V)))
      → (length (query_result str max_rows rcs cns raw).rows
          ≡ (query_result str max_rows rcs cns raw).row_count)
        × ((query_result str max_rows rcs cns raw).row_count ≤ max_rows)
        × (((query_result str max_rows rcs cns raw).truncated ≡ true) ↔ (max_rows < length raw))
  unfolding query_result
  query_result_bounded max_rows rcs cns raw = (
    refl,
    rw (length-mask_rows (resolved_by_name rcs) cns (kept max_rows raw)) (length-kept max_rows raw),
    (λ more. ground arith, λ less. ground arith),
  )
