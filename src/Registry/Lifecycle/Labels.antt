-- ===== src/Registry/Lifecycle/Labels.antt =====
-- The version label of a registry that is edited entity by entity
-- (onto_platform/registry/crud.py), and what follows for `undo_promote`.
use lingyunzhi_os_backend.Base.{ℕ, String, ◌≡◌, refl, ◌∙◌, ap, Option, List, ok, err, eq_iff}
use lingyunzhi_os_backend.ProtoModels.{OntologyRegistry, empty_registry, empty_registry_version}
use lingyunzhi_os_backend.Registry.Checks.Refs.{Kind}
use lingyunzhi_os_backend.Registry.Crud.Entities.{Entity, put, delete}
use lingyunzhi_os_backend.Registry.Crud.Puts.{put-ok}
use lingyunzhi_os_backend.Registry.Crud.Deletes.{delete-version}
use lingyunzhi_os_backend.Registry.Store.{Registries}
use lingyunzhi_os_backend.Registry.Lifecycle.{
  undo_unavailable, promote_staging_to_production, undo_promote,
}
use lingyunzhi_os_backend.Registry.Lifecycle.Undo.{promote-ok, undo_refused_by_label}

-- `r` comes from `reg` by puts and deletions that succeeded.
pub data Edited (ids : List String) (reg : OntologyRegistry) : OntologyRegistry → Type 0 where
  unedited : Edited ids reg reg
  then_put :
      {r s : OntologyRegistry} (e : Entity)
      → Edited ids reg r
      → put r e ids ≡ ok s
      → Edited ids reg s
  then_delete :
      {r s : OntologyRegistry} (k : Kind) (rid : String)
      → Edited ids reg r
      → delete r k rid ≡ ok s
      → Edited ids reg s

-- No put and no deletion changes the version label.
pub Edited-version :
    {ids : List String} {reg r : OntologyRegistry} → Edited ids reg r → r.version ≡ reg.version
Edited-version unedited = refl
Edited-version {ids} (then_put e before h) = (put-ok _ e ids h).2 ∙ Edited-version before
Edited-version (then_delete k rid before h) = delete-version _ k rid h ∙ Edited-version before

-- Whatever was put into the empty registry: after it has been promoted twice, previous_production
-- holds it, and yet an undo is refused.
pub undo_refused_after_edits :
    {ids : List String} {r : OntologyRegistry} (t u w : Registries) (now : ℕ)
    (label : Option String) (message : String)
    → Edited ids empty_registry r
    → t.staging_row.payload ≡ r
    → promote_staging_to_production now label t message ids ≡ ok u
    → promote_staging_to_production now label u message ids ≡ ok w
    → (w.previous_row.payload ≡ r) × (undo_promote now label w ≡ err undo_unavailable)
undo_refused_after_edits {ids} {r} t u w now label message edited staged h k =
    let (first, _) = promote-ok now label t message ids {u = u} h in
    let held : u.production_row.payload ≡ r =
      ap (λ (x : Registries). x.production_row.payload) first ∙ staged in
    let named : u.production_row.payload.version ≡ empty_registry_version =
      ap (λ (x : OntologyRegistry). x.version) held ∙ Edited-version edited in
    let (kept, refused) =
      undo_refused_by_label now now label u message ids {u = w} k ((eq_iff _ _).1 named) in
    (kept ∙ held, refused)
