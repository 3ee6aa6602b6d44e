-- ===== src/Registry/Crud/Deletes.antt =====
-- The deletions of onto_platform/registry/crud.py do not validate. Their guard is enough: what is
-- deleted is referred to by nobody, so no reference is left dangling.
use lingyunzhi_os_backend.Base.{
  String, ◌≡◌, refl, sym, ◌∙◌, ◌&&◌, Bool, true, false, List, [], ◌∷◌, Option, none, ok, err, ◌==◌,
  append-nil_split, append-nil_join, if◌then◌else◌, contains, for_each,
}
use lingyunzhi_os_backend.Dict.{erase, lookup-erase, contains-keys-erase, for_each-erase}
use lingyunzhi_os_backend.ProtoModels.{OntologyRegistry}
use lingyunzhi_os_backend.Registry.Findings.{ValidatorCtx}
use lingyunzhi_os_backend.Registry.Checks.Refs.{
  Kind, shared_property_types, interface_types, object_types, link_types, action_types, Pools, pool,
  pools, check_refs_in, check_refs, check_object, check_link, check_interface, check_action,
}
use lingyunzhi_os_backend.Registry.Checks.Refs.Shrink.{Shrinks, check_refs_in-shrink}
use lingyunzhi_os_backend.Registry.RefsScan.{Referrer, find_referrers}
use lingyunzhi_os_backend.Registry.Crud.{
  replace_map, unless_referenced, refuse_if_any, delete_shared_property_type, delete_interface_type,
  delete_object_type, delete_link_type, delete_action_type,
}
use lingyunzhi_os_backend.Registry.Crud.Errors.{referenced}
use lingyunzhi_os_backend.Registry.Crud.Entities.{Entity, same_kind, delete, entry, wrap}

-- The registry without an entity.
abbrev pub without : OntologyRegistry → Kind → String → OntologyRegistry
without reg shared_property_types rid = record reg {
  shared_property_types = erase rid reg.shared_property_types;
}
without reg interface_types rid = record reg { interface_types = erase rid reg.interface_types }
without reg object_types rid = record reg { object_types = erase rid reg.object_types }
without reg link_types rid = record reg { link_types = erase rid reg.link_types }
without reg action_types rid = record reg { action_types = erase rid reg.action_types }

delete-without :
    (reg : OntologyRegistry) (k : Kind) (rid : String)
    → delete reg k rid ≡ unless_referenced reg rid (without reg k rid)
unfolding delete_shared_property_type delete_interface_type delete_object_type delete_link_type
    delete_action_type replace_map
delete-without reg shared_property_types rid = refl
delete-without reg interface_types rid = refl
delete-without reg object_types rid = refl
delete-without reg link_types rid = refl
delete-without reg action_types rid = refl

refuse_if_any-ok :
    (t : String) (c : OntologyRegistry) (rs : List Referrer) {r : OntologyRegistry}
    → refuse_if_any t c rs ≡ ok r
    → (r ≡ c) × (rs ≡ [])
unfolding refuse_if_any
refuse_if_any-ok t c [] h = (cc, refl)
refuse_if_any-ok t c (x ∷ rs) h = cc

delete_cases :
    (reg : OntologyRegistry) (k : Kind) (rid : String) {r : OntologyRegistry}
    → delete reg k rid ≡ ok r
    → (r ≡ without reg k rid) × (find_referrers reg rid ≡ [])
unfolding unless_referenced
delete_cases reg k rid h = refuse_if_any-ok rid _ _ (sym (delete-without reg k rid) ∙ h)

keys-Shrinks :
    (reg : OntologyRegistry) (k : Kind) (rid : String)
    → Shrinks rid (pools reg) (pools (without reg k rid))
unfolding pools
keys-Shrinks reg k rid = record { keeps = λ j r ne there. keep k j r ne there }
  where
    keep :
        (k j : Kind) (r : String)
        → (r == rid) ≡ false
        → contains r (pool (pools reg) j) ≡ true
        → contains r (pool (pools (without reg k rid)) j) ≡ true
    keep shared_property_types shared_property_types r ne there =
        contains-keys-erase r rid _ ne there
    keep interface_types interface_types r ne there = contains-keys-erase r rid _ ne there
    keep object_types object_types r ne there = contains-keys-erase r rid _ ne there
    keep link_types link_types r ne there = contains-keys-erase r rid _ ne there
    keep action_types action_types r ne there = contains-keys-erase r rid _ ne there
    keep _ _ r ne there = there

-- Fewer entities refer to less.
check_refs_in-without :
    (p : Pools) (reg : OntologyRegistry) (k : Kind) (rid : String)
    → check_refs_in p reg ≡ []
    → check_refs_in p (without reg k rid) ≡ []
unfolding check_refs_in
check_refs_in-without p reg shared_property_types rid c = c
check_refs_in-without p reg object_types rid c =
    let (c1, ca) = append-nil_split (for_each reg.object_types (check_object p)) _ c in
    append-nil_join (for_each-erase rid reg.object_types _ c1) ca
check_refs_in-without p reg link_types rid c =
    let (c1, ca) = append-nil_split (for_each reg.object_types (check_object p)) _ c in
    let (c2, cb) = append-nil_split (for_each reg.link_types (check_link p)) _ ca in
    append-nil_join c1 (append-nil_join (for_each-erase rid reg.link_types _ c2) cb)
check_refs_in-without p reg interface_types rid c =
    let (c1, ca) = append-nil_split (for_each reg.object_types (check_object p)) _ c in
    let (c2, cb) = append-nil_split (for_each reg.link_types (check_link p)) _ ca in
    let (c3, c4) = append-nil_split (for_each reg.interface_types (check_interface p)) _ cb in
    append-nil_join c1
      (append-nil_join c2 (append-nil_join (for_each-erase rid reg.interface_types _ c3) c4))
check_refs_in-without p reg action_types rid c =
    let (c1, ca) = append-nil_split (for_each reg.object_types (check_object p)) _ c in
    let (c2, cb) = append-nil_split (for_each reg.link_types (check_link p)) _ ca in
    let (c3, c4) = append-nil_split (for_each reg.interface_types (check_interface p)) _ cb in
    append-nil_join c1 (
      append-nil_join c2
        (append-nil_join c3 (for_each-erase rid reg.action_types (check_action p) c4)))

-- A deletion that succeeds leaves no dangling reference: where the reference checker found nothing
-- before, it finds nothing after, although a deletion does not run the validator.
pub delete-check_refs :
    (reg : OntologyRegistry) (k : Kind) (rid : String) (ctx : ValidatorCtx) {r : OntologyRegistry}
    → delete reg k rid ≡ ok r
    → check_refs reg ctx ≡ []
    → check_refs r ctx ≡ []
unfolding check_refs
delete-check_refs reg k rid ctx {r} h c =
    let (same, unreferenced) = delete_cases reg k rid {r = r} h in
    rw same (
      check_refs_in-without _ reg k rid (
        check_refs_in-shrink rid (pools reg) (pools (without reg k rid)) (keys-Shrinks reg k rid)
          reg unreferenced c))

wrap-if_none {ℓ} :
    {A : Type ℓ} (c : A → Entity) (b : Bool) (o : Option A)
    → wrap c (if b then none else o) ≡ (if b then none else wrap c o)
wrap-if_none c true o = refl
wrap-if_none c false o = refl

entry-without :
    (reg : OntologyRegistry) (k : Kind) (rid : String) (j : Kind) (x : String)
    → entry (without reg k rid) j x ≡ (if same_kind j k && rid == x then none else entry reg j x)
entry-without reg shared_property_types rid shared_property_types x =
    rw lookup-erase (wrap-if_none _ _ _)
entry-without reg interface_types rid interface_types x = rw lookup-erase (wrap-if_none _ _ _)
entry-without reg object_types rid object_types x = rw lookup-erase (wrap-if_none _ _ _)
entry-without reg link_types rid link_types x = rw lookup-erase (wrap-if_none _ _ _)
entry-without reg action_types rid action_types x = rw lookup-erase (wrap-if_none _ _ _)
entry-without reg _ rid _ x = refl

-- What a deletion does, by what the scan for referrers finds.
abbrev pub DeleteOutcome : OntologyRegistry → Kind → String → List Referrer → Type 0
DeleteOutcome reg k rid [] =
    (r : OntologyRegistry) × (delete reg k rid ≡ ok r)
    × ((j : Kind) (x : String)
        → entry r j x ≡ (if same_kind j k && rid == x then none else entry reg j x))
DeleteOutcome reg k rid (x ∷ rs) = delete reg k rid ≡ err (referenced rid (x ∷ rs))

delete-outcome :
    (reg : OntologyRegistry) (k : Kind) (rid : String) (rs : List Referrer)
    → find_referrers reg rid ≡ rs
    → DeleteOutcome reg k rid rs
unfolding unless_referenced refuse_if_any
delete-outcome reg k rid [] e =
    (without reg k rid, delete-without reg k rid ∙ rw e refl, entry-without reg k rid)
delete-outcome reg k rid (x ∷ rs) e = delete-without reg k rid ∙ rw e refl

-- Both outcomes of a deletion: if the scan finds referrers, all of them are raised; if it finds
-- none, the deletion succeeds, the entity is gone, and every other entity of every kind is the same.
pub delete_lem :
    (reg : OntologyRegistry) (k : Kind) (rid : String)
    → DeleteOutcome reg k rid (find_referrers reg rid)
delete_lem reg k rid = delete-outcome reg k rid (find_referrers reg rid) refl

version-without :
    (reg : OntologyRegistry) (k : Kind) (rid : String) → (without reg k rid).version ≡ reg.version
version-without reg shared_property_types rid = refl
version-without reg _ rid = refl

-- A deletion keeps the version label.
pub delete-version :
    (reg : OntologyRegistry) (k : Kind) (rid : String) {r : OntologyRegistry}
    → delete reg k rid ≡ ok r
    → r.version ≡ reg.version
delete-version reg k rid {r} h = rw (delete_cases reg k rid {r = r} h).0 (version-without reg k rid)
