-- ===== src/Registry/Lifecycle/Reachable.antt =====
-- The table under any sequence of edits of staging, promotions, reverts and undos
-- (onto_platform/registry/lifecycle.py), against a fixed set of connections.
use lingyunzhi_os_backend.Base.{
  ℕ, String, ◌≡◌, refl, Option, List, ok, sym, ◌∙◌, if-ok, ok_injective, for_each,
}
use lingyunzhi_os_backend.ProtoModels.{OntologyRegistry, empty_registry}
use lingyunzhi_os_backend.Registry.Checks.Structural.{check_structural}
use lingyunzhi_os_backend.Registry.Checks.Refs.{check_refs, check_refs_in, pools}
use lingyunzhi_os_backend.Registry.Checks.InterfaceCategory.{check_interface_category}
use lingyunzhi_os_backend.Registry.Checks.Cycles.{check_cycles, search_from}
use lingyunzhi_os_backend.Registry.Checks.PropertyBacking.{check_property_backing}
use lingyunzhi_os_backend.Registry.Checks.AssetMapping.{check_asset_mapping}
use lingyunzhi_os_backend.Registry.Checks.CrossProperty.{check_cross_property}
use lingyunzhi_os_backend.Registry.Validator.{validate, has_errors, checkers}
use lingyunzhi_os_backend.Registry.Crud.Validated.{IsClean}
use lingyunzhi_os_backend.Registry.Store.{staging, Registries, initial, save}
use lingyunzhi_os_backend.Registry.Store.Locking.{save-ok}
use lingyunzhi_os_backend.Registry.Lifecycle.{
  promote_staging_to_production, revert_staging_to_production, undo_promote,
}
use lingyunzhi_os_backend.Registry.Lifecycle.Outcomes.{reverted, revert_lem, undo_lem}
use lingyunzhi_os_backend.Registry.Lifecycle.Undo.{promote-ok}

module _ (ids : List String) where
  empty-IsClean : IsClean empty_registry ids
  unfolding has_errors validate checkers for_each check_structural check_refs check_refs_in pools
      check_interface_category check_cycles search_from check_property_backing check_asset_mapping
      check_cross_property
  empty-IsClean = refl

  pub data Step (t : Registries) : Registries → Type 0 where
    -- any save of staging: the editor's tools, an ingestion job, the end of a chat session
    edit :
        {u : Registries} {v : ℕ} (now : ℕ) (registry : OntologyRegistry) (expected : Option ℕ)
        (label message : Option String)
        → save now t staging registry expected label message ≡ ok (u, v)
        → Step t u
    promote :
        {u : Registries} (now : ℕ) (label : Option String) (message : String)
        → promote_staging_to_production now label t message ids ≡ ok u
        → Step t u
    revert :
        {u : Registries} (now : ℕ) (label : Option String)
        → revert_staging_to_production now label t ≡ ok u
        → Step t u
    undo :
        {u : Registries} (now : ℕ) (label : Option String)
        → undo_promote now label t ≡ ok u
        → Step t u

  pub data Reach (s : Registries) : Registries → Type 0 where
    here : Reach s s
    next : {t u : Registries} → Reach s t → Step t u → Reach s u

  pub record IsServable (t : Registries) : Type 0 where
    pub production_clean : IsClean t.production_row.payload ids
    pub previous_clean : IsClean t.previous_row.payload ids

  Step-IsServable : {t u : Registries} → Step t u → IsServable t → IsServable u
  Step-IsServable (edit now registry expected label message h) s =
      rw (save-ok now _ staging registry expected label message h).1
        (record { production_clean = s.production_clean; previous_clean = s.previous_clean })
  Step-IsServable (promote now label message h) s =
      let (same, clean) = promote-ok now label _ message ids h in
      rw same (record { production_clean = clean; previous_clean = s.production_clean })
  Step-IsServable {t} {u} (revert now label h) s =
      let same : u ≡ reverted now label t = ok_injective (sym h ∙ revert_lem now label t) in
      rw same (record { production_clean = s.production_clean; previous_clean = s.previous_clean })
  Step-IsServable {t} {u} (undo now label h) s =
      let (_, same) = if-ok _ _ _ (sym (undo_lem now label t) ∙ h) in
      rw same (record { production_clean = s.previous_clean; previous_clean = empty-IsClean })

  -- Whatever sequence of edits, promotions, reverts and undos starts from the migrated table, all of
  -- them against one fixed set of registered connections and each in a transaction of its own that
  -- no other one meets, the registry in production has no validation error against that set, nor has
  -- the one that an undo would restore. A connection that is added or deleted between two steps is
  -- outside of this: an undo can put a deleted one back into use.
  pub Reach-IsServable : {t : Registries} → Reach initial t → IsServable t
  Reach-IsServable here = record {
    production_clean = empty-IsClean;
    previous_clean = empty-IsClean;
  }
  Reach-IsServable (next r step) = Step-IsServable step (Reach-IsServable r)
