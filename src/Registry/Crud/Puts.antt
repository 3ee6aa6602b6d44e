-- ===== src/Registry/Crud/Puts.antt =====
-- What the puts of onto_platform/registry/crud.py do on both outcomes.
use lingyunzhi_os_backend.Base.{
  String, ◌≡◌, refl, sym, ◌∙◌, Bool, true, false, ◌&&◌, List, Option, some, ok, ◌==◌, if◌then◌else◌,
}
use lingyunzhi_os_backend.Dict.{insert, lookup-insert}
use lingyunzhi_os_backend.ProtoModels.{OntologyRegistry}
use lingyunzhi_os_backend.Registry.Checks.Refs.{
  Kind, shared_property_types, interface_types, object_types, link_types, action_types,
}
use lingyunzhi_os_backend.Registry.Crud.{
  replace_map, validated, put_shared_property_type, put_interface_type, put_object_type,
  put_link_type, put_action_type,
}
use lingyunzhi_os_backend.Registry.Crud.Validated.{IsClean, validated-ok}
use lingyunzhi_os_backend.Registry.Crud.Entities.{
  Entity, shared_property_type, interface_type, object_type, link_type, action_type, kind_of,
  rid_of, same_kind, put, entry, wrap,
}

-- A registry after a put, under every identifier of every kind.
abbrev pub Replaced : OntologyRegistry → Entity → OntologyRegistry → Type 0
Replaced reg e r =
    (k : Kind) (j : String)
    → entry r k j ≡ (if same_kind k (kind_of e) && rid_of e == j then some e else entry reg k j)

-- The registry that a put validates.
abbrev pub candidate : OntologyRegistry → Entity → OntologyRegistry
candidate reg (shared_property_type d) = record reg {
  shared_property_types = insert d.rid d reg.shared_property_types;
}
candidate reg (interface_type d) = record reg {
  interface_types = insert d.rid d reg.interface_types;
}
candidate reg (object_type d) = record reg { object_types = insert d.rid d reg.object_types }
candidate reg (link_type d) = record reg { link_types = insert d.rid d reg.link_types }
candidate reg (action_type d) = record reg { action_types = insert d.rid d reg.action_types }

pub put-candidate :
    (reg : OntologyRegistry) (e : Entity) (ids : List String)
    → put reg e ids ≡ validated (candidate reg e) ids
unfolding put_shared_property_type put_interface_type put_object_type put_link_type put_action_type
    replace_map
put-candidate reg (shared_property_type d) ids = refl
put-candidate reg (interface_type d) ids = refl
put-candidate reg (object_type d) ids = refl
put-candidate reg (link_type d) ids = refl
put-candidate reg (action_type d) ids = refl

version-candidate : (reg : OntologyRegistry) (e : Entity) → (candidate reg e).version ≡ reg.version
version-candidate reg (shared_property_type d) = refl
version-candidate reg _ = refl

wrap-if {ℓ} :
    {A : Type ℓ} (c : A → Entity) (b : Bool) (v : A) (o : Option A)
    → wrap c (if b then some v else o) ≡ (if b then some (c v) else wrap c o)
wrap-if c true v o = refl
wrap-if c false v o = refl

entry-candidate : (reg : OntologyRegistry) (e : Entity) → Replaced reg e (candidate reg e)
entry-candidate reg (shared_property_type d) shared_property_types j =
    rw lookup-insert (wrap-if _ _ _ _)
entry-candidate reg (interface_type d) interface_types j = rw lookup-insert (wrap-if _ _ _ _)
entry-candidate reg (object_type d) object_types j = rw lookup-insert (wrap-if _ _ _ _)
entry-candidate reg (link_type d) link_types j = rw lookup-insert (wrap-if _ _ _ _)
entry-candidate reg (action_type d) action_types j = rw lookup-insert (wrap-if _ _ _ _)
entry-candidate reg _ _ j = refl

-- A put that succeeds returns a registry without validation errors that holds the definition under
-- its own identifier and is unchanged under every other identifier and kind; the version label is
-- the old one.
pub put-ok :
    (reg : OntologyRegistry) (e : Entity) (ids : List String) {r : OntologyRegistry}
    → put reg e ids ≡ ok r
    → IsClean r ids × Replaced reg e r × (r.version ≡ reg.version)
put-ok reg e ids {r} h =
    let (same, clean) =
      validated-ok (candidate reg e) ids {r = r} (sym (put-candidate reg e ids) ∙ h) in
    (clean, rw same (entry-candidate reg e), rw same (version-candidate reg e))
