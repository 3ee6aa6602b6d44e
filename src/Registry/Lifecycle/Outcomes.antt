-- ===== src/Registry/Lifecycle/Outcomes.antt =====
-- What the three operations of onto_platform/registry/lifecycle.py do, on every branch, in a run in
-- which nothing else commits.
use lingyunzhi_os_backend.Base.{
  ℕ, String, ◌≡◌, Option, none, some, List, ok, err, ◌>>=◌, ◌==◌, nat_eq_refl, Bool-cases, inl, inr,
  refl, ◌∙◌, ap, if◌then◌else◌,
}
use lingyunzhi_os_backend.ProtoModels.{empty_registry, empty_registry_version}
use lingyunzhi_os_backend.Registry.Crud.{validated}
use lingyunzhi_os_backend.Registry.Crud.Errors.{Crud}
use lingyunzhi_os_backend.Registry.Store.{Registries, updated, load, save}
use lingyunzhi_os_backend.Registry.Lifecycle.{
  Moved, result, checked, undo_unavailable, from_crud, promote_staging_to_production,
  revert_staging_to_production, undo_promote, promote_among, revert_among, undo_among,
}

result-checked :
    {A : Type 0} (t : Registries) (c : Crud A) (next : Moved)
    → result (checked t c next) ≡ (from_crud c >>= λ _. result next)
result-checked t (ok a) next = refl
result-checked t (err e) next = refl

module _ (now : ℕ) (label : Option String) (t : Registries) where
  -- The table after a promotion: the old production is kept as the previous one.
  abbrev pub promoted : String → Registries
  promoted message = record t {
    production_row = updated t.production_row now t.staging_row.payload label (some message);
    previous_row = updated t.previous_row now t.production_row.payload label none;
  }

  abbrev pub reverted : Registries
  reverted = record t {
    staging_row = updated t.staging_row now t.production_row.payload label none;
  }

  abbrev pub undone : Registries
  undone = record t {
    production_row = updated t.production_row now t.previous_row.payload label none;
    previous_row = updated t.previous_row now empty_registry label none;
  }

  -- When nothing else commits during the call, a promotion raises the validation errors of staging
  -- and nothing else; if staging is clean it moves production to previous_production and staging to production, and leaves staging alone.
  pub promote_lem :
      (message : String) (ids : List String)
      → promote_staging_to_production now label t message ids
        ≡ (from_crud (validated t.staging_row.payload ids) >>= λ _. ok (promoted message))
  unfolding promote_staging_to_production promote_among load save
  promote_lem message ids =
      result-checked t (validated t.staging_row.payload ids) _
      ∙ ap (λ r. from_crud (validated t.staging_row.payload ids) >>= λ _. r) (simp nat_eq_refl)

  -- When nothing else commits during the call, a revert does not fail, and writes the staging row alone.
  pub revert_lem : revert_staging_to_production now label t ≡ ok reverted
  unfolding revert_staging_to_production revert_among load save
  revert_lem = simp nat_eq_refl

  -- When nothing else commits during the call, an undo is refused exactly if the version label of previous_production is the empty one.
  pub undo_lem : undo_promote now label t ≡ (
      if t.previous_row.payload.version == empty_registry_version
      then err undo_unavailable
      else ok undone)
  unfolding undo_promote undo_among load save
  undo_lem = elim (Bool-cases (t.previous_row.payload.version == empty_registry_version)) [
    | inl empty ↦ rw empty refl
    | inr content ↦ rw content (simp nat_eq_refl)
  ]
