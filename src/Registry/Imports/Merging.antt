-- ===== src/Registry/Imports/Merging.antt =====
-- What an import keeps and what it replaces.
use lingyunzhi_os_backend.Base.{
  String, ◌≡◌, refl, Bool, true, false, Option, List, ok, if◌then◌else◌,
}
use lingyunzhi_os_backend.Dict.{has}
use lingyunzhi_os_backend.Dict.Merge.{IsDict, lookup-merge}
use lingyunzhi_os_backend.ProtoModels.{OntologyRegistry}
use lingyunzhi_os_backend.Registry.Checks.Refs.{
  Kind, shared_property_types, interface_types, object_types, link_types, action_types,
}
use lingyunzhi_os_backend.Registry.Crud.Entities.{Entity, entry, wrap}
use lingyunzhi_os_backend.Registry.Crud.Validated.{IsClean, validated-ok}
use lingyunzhi_os_backend.Registry.Imports.{merge_mode, combine, import_into_registry}

-- `rid in registry.<kind>`
abbrev pub holds : OntologyRegistry → Kind → String → Bool
holds reg shared_property_types rid = has rid reg.shared_property_types
holds reg interface_types rid = has rid reg.interface_types
holds reg object_types rid = has rid reg.object_types
holds reg link_types rid = has rid reg.link_types
holds reg action_types rid = has rid reg.action_types

-- No identifier twice within a kind.
pub record IsRegistry (reg : OntologyRegistry) : Type 0 where
  pub unique_shared : IsDict reg.shared_property_types
  pub unique_interfaces : IsDict reg.interface_types
  pub unique_objects : IsDict reg.object_types
  pub unique_links : IsDict reg.link_types
  pub unique_actions : IsDict reg.action_types

wrap-if {ℓ} :
    {A : Type ℓ} (c : A → Entity) (b : Bool) (u v : Option A)
    → wrap c (if b then u else v) ≡ (if b then wrap c u else wrap c v)
wrap-if c true u v = refl
wrap-if c false u v = refl

entry-merge :
    (base incoming : OntologyRegistry) (k : Kind) (j : String)
    → IsRegistry incoming
    → entry (combine base incoming merge_mode) k j
      ≡ (if holds incoming k j then entry incoming k j else entry base k j)
unfolding combine
entry-merge base incoming shared_property_types j u =
    rw (lookup-merge j _ _ u.unique_shared) (wrap-if _ _ _ _)
entry-merge base incoming interface_types j u =
    rw (lookup-merge j _ _ u.unique_interfaces) (wrap-if _ _ _ _)
entry-merge base incoming object_types j u =
    rw (lookup-merge j _ _ u.unique_objects) (wrap-if _ _ _ _)
entry-merge base incoming link_types j u = rw (lookup-merge j _ _ u.unique_links) (wrap-if _ _ _ _)
entry-merge base incoming action_types j u =
    rw (lookup-merge j _ _ u.unique_actions) (wrap-if _ _ _ _)

-- A merging import that succeeds returns a registry without validation errors in which every
-- identifier of every kind has the incoming definition if there is one, and otherwise the old one.
pub import_merge-entry :
    (base incoming : OntologyRegistry) (ids : List String) {r : OntologyRegistry}
    → IsRegistry incoming
    → import_into_registry base incoming merge_mode ids ≡ ok r
    → IsClean r ids
      × ((k : Kind) (j : String)
          → entry r k j ≡ (if holds incoming k j then entry incoming k j else entry base k j))
unfolding import_into_registry
import_merge-entry base incoming ids {r} u h =
    let (same, clean) = validated-ok (combine base incoming merge_mode) ids {r = r} h in
    (clean, rw same (λ k j. entry-merge base incoming k j u))
