-- ===== src/Registry/Diff.antt =====
-- onto_platform/registry/diff.py. What `model_dump` writes out is kept as the definition itself;
-- the equality of two definitions is Pydantic's, and enters as an instance.
pub mod Entries
use lingyunzhi_os_backend.Base.{
  String, ◌≡◌, ◌↔◌, Bool, true, false, not, List, [], ◌∷◌, Option, none, some, if◌then◌else◌,
}
use lingyunzhi_os_backend.Dict.{Dict, lookup, has}
use lingyunzhi_os_backend.ProtoModels.{
  SharedPropertyTypeDefinition, InterfaceTypeDefinition, ObjectTypeDefinition, LinkTypeDefinition,
  ActionTypeDefinition, OntologyRegistry,
}

-- `a == b` on models, which is Pydantic's: nothing is asked of it
pub record Eq {ℓ} (A : Type ℓ) : Type ℓ where
  pub beq : A → A → Bool

-- The entries of one kind in `added`, `removed` and `modified`; a modified one has its staging and
-- its production side.
pub record KindDiff {ℓ} (A : Type ℓ) : Type ℓ where
  pub added : Dict A
  pub removed : Dict A
  pub modified : Dict (A × A)

module _ {ℓ} {A : Type ℓ} where
  -- The entries of the first dictionary whose key the second one lacks.
  unfoldable pub only_in : Dict A → Dict A → Dict A
  unfolding has
  only_in [] p = []
  only_in ((rid, defn) ∷ s) p = if has rid p then only_in s p else (rid, defn) ∷ only_in s p

module _ {ℓ} {A : Type ℓ} ⦃e : Eq A⦄ where
  -- What `elif defn != p[rid]` does with an entry, on what was found in production.
  abbrev pub changed : String → A → Option A → Dict (A × A) → Dict (A × A)
  changed rid defn none rest = rest
  changed rid defn (some old) rest = if e.beq defn old then rest else (rid, (defn, old)) ∷ rest

  unfoldable pub modified_in : Dict A → Dict A → Dict (A × A)
  unfolding lookup
  modified_in [] p = []
  modified_in ((rid, defn) ∷ s) p = changed rid defn (lookup rid p) (modified_in s p)

  -- The body of the loop over `_KINDS`.
  unfoldable pub diff_kind : Dict A → Dict A → KindDiff A
  unfolding only_in modified_in
  diff_kind s p = record { added = only_in s p; removed = only_in p s; modified = modified_in s p }

pub record RegistryDiff : Type 0 where
  pub shared_property_types : KindDiff SharedPropertyTypeDefinition
  pub interface_types : KindDiff InterfaceTypeDefinition
  pub object_types : KindDiff ObjectTypeDefinition
  pub link_types : KindDiff LinkTypeDefinition
  pub action_types : KindDiff ActionTypeDefinition

module _ ⦃shared : Eq SharedPropertyTypeDefinition⦄ ⦃interfaces : Eq InterfaceTypeDefinition⦄
    ⦃objects : Eq ObjectTypeDefinition⦄ ⦃links : Eq LinkTypeDefinition⦄
    ⦃actions : Eq ActionTypeDefinition⦄ where
  unfoldable pub compute_diff : OntologyRegistry → OntologyRegistry → RegistryDiff
  unfolding diff_kind
  compute_diff s p = record {
    shared_property_types = diff_kind s.shared_property_types p.shared_property_types;
    interface_types = diff_kind s.interface_types p.interface_types;
    object_types = diff_kind s.object_types p.object_types;
    link_types = diff_kind s.link_types p.link_types;
    action_types = diff_kind s.action_types p.action_types;
  }
