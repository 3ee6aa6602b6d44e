-- ===== src/Registry/Lifecycle/Undo.antt =====
-- `undo_promote` of onto_platform/registry/lifecycle.py against the promotion that it undoes. The
-- slot previous_production counts as empty by its version label alone.
use lingyunzhi_os_backend.Base.{
  ℕ, String, ◌≡◌, refl, sym, ◌∙◌, true, false, Option, List, ok, err, ◌>>=◌, ◌==◌,
}
use lingyunzhi_os_backend.ProtoModels.{OntologyRegistry, empty_registry, empty_registry_version}
use lingyunzhi_os_backend.Registry.Crud.{validated}
use lingyunzhi_os_backend.Registry.Crud.Errors.{Crud}
use lingyunzhi_os_backend.Registry.Crud.Validated.{IsClean, validated-ok}
use lingyunzhi_os_backend.Registry.Store.{Registries}
use lingyunzhi_os_backend.Registry.Lifecycle.{
  undo_unavailable, from_crud, promote_staging_to_production, undo_promote,
}
use lingyunzhi_os_backend.Registry.Lifecycle.Outcomes.{promoted, undone, promote_lem, undo_lem}

promoted-ok :
    (c : Crud OntologyRegistry) (t : Registries) {u : Registries}
    → (from_crud c >>= λ _. ok t) ≡ ok u
    → (u ≡ t) × ((r : OntologyRegistry) × (c ≡ ok r))
promoted-ok (ok r) t h = (cc, (r, refl))
promoted-ok (err e) t h = cc

-- A promotion that succeeds had a clean staging registry.
pub promote-ok :
    (now : ℕ) (label : Option String) (t : Registries) (message : String) (ids : List String)
    {u : Registries}
    → promote_staging_to_production now label t message ids ≡ ok u
    → (u ≡ promoted now label t message) × IsClean t.staging_row.payload ids
promote-ok now label t message ids {u} h =
    let (same, (r, passed)) =
      promoted-ok (validated t.staging_row.payload ids) (promoted now label t message) {u = u}
        (sym (promote_lem now label t message ids) ∙ h) in
    let (whole, clean) = validated-ok t.staging_row.payload ids {r = r} passed in
    (same, rw whole at clean)

-- Undoing a promotion, where nothing else commits in between or during the calls, brings back the
-- production registry from before it, empties the slot and leaves staging alone, and a second undo is
-- refused; the registry that is brought back must not be labelled as the empty one.
pub undo-promote :
    (now later : ℕ) (label : Option String) (t : Registries) (message : String) (ids : List String)
    {u : Registries}
    → promote_staging_to_production now label t message ids ≡ ok u
    → (t.production_row.payload.version == empty_registry_version) ≡ false
    → (w : Registries) × (undo_promote later label u ≡ ok w)
      × (w.production_row.payload ≡ t.production_row.payload)
      × (w.previous_row.payload ≡ empty_registry)
      × (w.staging_row ≡ t.staging_row)
      × (undo_promote later label w ≡ err undo_unavailable)
undo-promote now later label t message ids {u} h unlabelled =
    let (same, _) = promote-ok now label t message ids {u = u} h in
    let p = promoted now label t message in
    (
      undone later label p,
      rw (same, undo_lem) (rw unlabelled refl),
      refl,
      refl,
      refl,
      undo_lem later label (undone later label p),
    )

-- Where production is labelled as the empty registry, whatever it holds, a promotion keeps it in
-- previous_production and cannot be undone.
pub undo_refused_by_label :
    (now later : ℕ) (label : Option String) (t : Registries) (message : String) (ids : List String)
    {u : Registries}
    → promote_staging_to_production now label t message ids ≡ ok u
    → (t.production_row.payload.version == empty_registry_version) ≡ true
    → (u.previous_row.payload ≡ t.production_row.payload)
      × (undo_promote later label u ≡ err undo_unavailable)
undo_refused_by_label now later label t message ids {u} h labelled =
    let (same, _) = promote-ok now label t message ids {u = u} h in
    (rw same refl, rw (same, undo_lem) (rw labelled refl))
