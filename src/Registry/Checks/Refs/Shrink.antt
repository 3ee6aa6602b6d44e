-- ===== src/Registry/Checks/Refs/Shrink.antt =====
-- What `check_refs` finds when an identifier is taken out of the pools: nothing new, if nobody
-- refers to it.
use lingyunzhi_os_backend.Base.{
  ℕ, ◌+◌, String, ◌≡◌, refl, true, false, List, [], ◌∷◌, arith, ◌==◌, contains, for_each,
  only_if-nil, append-nil_split, append-nil_join, for_each-nil_both, for_each-nil_except,
  Bool-cases, inl, inr,
}
use lingyunzhi_os_backend.ProtoModels.{
  PropertyTypeDefinition, InterfaceTypeDefinition, ObjectTypeDefinition, LinkTypeDefinition,
  ActionTypeDefinition, ActionParameter, OntologyRegistry,
}
use lingyunzhi_os_backend.Registry.Checks.Refs.{
  Kind, shared_property_types, interface_types, object_types, link_types, Pools, resolves, pool,
  missing, check_ref, check_inherits, check_object, check_link, check_interface, check_parameter,
  check_parameters, check_action, check_refs_in,
}
use lingyunzhi_os_backend.Registry.RefsScan.{
  refs_inherit, refs_object_property, refs_object, refs_link, refs_interface, refs_parameter,
  refs_parameters, refs_action, find_referrers,
}

-- `q` has all that `p` has, but perhaps not `t`.
pub record Shrinks (t : String) (p q : Pools) : Type 0 where
  pub keeps :
      (k : Kind) (r : String)
      → (r == t) ≡ false
      → contains r (pool p k) ≡ true
      → contains r (pool q k) ≡ true

module _ (t : String) (p q : Pools) (s : Shrinks t p q) where
  missing-shrink :
      (k : Kind) (r : String)
      → (r == t) ≡ false
      → missing r p (k ∷ []) ≡ false
      → missing r q (k ∷ []) ≡ false
  unfolding missing resolves
  missing-shrink k r e h = elim (Bool-cases (contains r (pool p k))) [
    | inl there ↦ rw (s.keeps k r e there) (ground arith)
    | inr absent ↦ ground arith
  ]

  check_ref-shrink :
      (k : Kind) (expected where_ r : String)
      → (r == t) ≡ false
      → check_ref p k expected where_ r ≡ []
      → check_ref q k expected where_ r ≡ []
  unfolding check_ref
  check_ref-shrink k expected where_ r e h = rw (missing-shrink k r e (only_if-nil _ _ h)) refl

  check_inherits-shrink :
      (base rid base' : String) (x : String × PropertyTypeDefinition)
      → refs_inherit t rid base' x ≡ []
      → check_inherits p base x ≡ []
      → check_inherits q base x ≡ []
  unfolding refs_inherit check_inherits
  check_inherits-shrink base rid base' (k, pt) h c =
      check_ref-shrink shared_property_types _ _ _ (only_if-nil _ _ h) c

  object_property-shrink :
      (rid base : String) (x : String × PropertyTypeDefinition)
      → refs_object_property t rid x ≡ []
      → check_inherits p base x ≡ []
      → check_inherits q base x ≡ []
  unfolding refs_object_property
  object_property-shrink rid base (k, pt) h c =
      check_inherits-shrink base rid _ (k, pt) (append-nil_split _ _ h).0 c

  -- A loop over identifiers of one kind.
  rids-shrink :
      (k : Kind) (expected where_ : String) (rids : List String)
      → contains t rids ≡ false
      → for_each rids (check_ref p k expected where_) ≡ []
      → for_each rids (check_ref q k expected where_) ≡ []
  rids-shrink k expected where_ rids h c =
      for_each-nil_except t rids _ _ (λ r. check_ref-shrink k expected where_ r) h c

  check_object-shrink :
      (x : String × ObjectTypeDefinition)
      → refs_object t x ≡ []
      → check_object p x ≡ []
      → check_object q x ≡ []
  unfolding refs_object check_object
  check_object-shrink (rid, obj) h c =
      let (h1, h2) = append-nil_split _ _ h in
      let (c1, c_rest) = append-nil_split _ _ c in
      let (c2, c3) = append-nil_split _ _ c_rest in
      append-nil_join
        (rids-shrink interface_types "InterfaceType" _ obj.implements_interface_type_rids
          (only_if-nil _ _ h1) c1)
        (append-nil_join c2
          (for_each-nil_both obj.property_types _ _ _ (object_property-shrink rid _) h2 c3))

  check_link-shrink :
      (x : String × LinkTypeDefinition)
      → refs_link t x ≡ []
      → check_link p x ≡ []
      → check_link q x ≡ []
  unfolding refs_link check_link
  check_link-shrink (rid, lt) h c =
      let (h1, ha) = append-nil_split _ _ h in
      let (h2, hb) = append-nil_split _ _ ha in
      let (h3, hc) = append-nil_split _ _ hb in
      let (h4, hd) = append-nil_split _ _ hc in
      let (h5, h6) = append-nil_split _ _ hd in
      let (c1, ca) = append-nil_split _ _ c in
      let (c2, cb) = append-nil_split _ _ ca in
      let (c3, cd) = append-nil_split _ _ cb in
      let (c4, ce) = append-nil_split _ _ cd in
      let (c5, cf) = append-nil_split _ _ ce in
      let (c6, c7) = append-nil_split _ _ cf in
      append-nil_join (check_ref-shrink object_types _ _ _ (only_if-nil _ _ h1) c1) (
        append-nil_join (check_ref-shrink interface_types _ _ _ (only_if-nil _ _ h2) c2) (
          append-nil_join (check_ref-shrink object_types _ _ _ (only_if-nil _ _ h3) c3) (
            append-nil_join (check_ref-shrink interface_types _ _ _ (only_if-nil _ _ h4) c4) (
              append-nil_join
                (rids-shrink interface_types _ _ lt.implements_interface_type_rids
                  (only_if-nil _ _ h5) c5)
                (append-nil_join c6 (
                  for_each-nil_both lt.property_types _ _ _ (check_inherits-shrink _ rid _) h6
                    c7))))))

  check_interface-shrink :
      (x : String × InterfaceTypeDefinition)
      → refs_interface t x ≡ []
      → check_interface p x ≡ []
      → check_interface q x ≡ []
  unfolding refs_interface check_interface
  check_interface-shrink (rid, iface) h c =
      let (h1, h2) = append-nil_split _ _ h in
      let (c1, c2) = append-nil_split _ _ c in
      append-nil_join
        (rids-shrink interface_types _ _ iface.extends_interface_type_rids (only_if-nil _ _ h1) c1)
        (rids-shrink shared_property_types _ _ iface.required_shared_property_type_rids
          (only_if-nil _ _ h2) c2)

  check_parameter-shrink :
      (rid base base' : String) (a : ActionParameter)
      → refs_parameter t rid base' a ≡ []
      → check_parameter p base a ≡ []
      → check_parameter q base a ≡ []
  unfolding refs_parameter check_parameter
  check_parameter-shrink rid base base' a h c =
      let (h1, h') = append-nil_split _ _ h in
      let (h2, h3) = append-nil_split _ _ h' in
      let (c1, c') = append-nil_split _ _ c in
      let (c2, c3) = append-nil_split _ _ c' in
      append-nil_join (check_ref-shrink object_types _ _ _ (only_if-nil _ _ h1) c1) (
        append-nil_join (check_ref-shrink link_types _ _ _ (only_if-nil _ _ h2) c2)
          (check_ref-shrink interface_types _ _ _ (only_if-nil _ _ h3) c3))

  check_parameters-shrink :
      (rid base : String) (i : ℕ) (ps : List ActionParameter)
      → refs_parameters t rid i ps ≡ []
      → check_parameters p base i ps ≡ []
      → check_parameters q base i ps ≡ []
  unfolding refs_parameters check_parameters
  check_parameters-shrink rid base i [] h c = refl
  check_parameters-shrink rid base i (a ∷ ps) h c =
      let (h1, h2) = append-nil_split _ _ h in
      let (c1, c2) = append-nil_split _ _ c in
      append-nil_join (check_parameter-shrink rid _ _ a h1 c1)
        (check_parameters-shrink rid base (i + 1) ps h2 c2)

  check_action-shrink :
      (x : String × ActionTypeDefinition)
      → refs_action t x ≡ []
      → check_action p x ≡ []
      → check_action q x ≡ []
  unfolding refs_action check_action
  check_action-shrink (rid, action) h c = check_parameters-shrink rid _ 0 action.parameters h c

  -- If nobody refers to what is taken out, no reference is lost.
  pub check_refs_in-shrink :
      (registry : OntologyRegistry)
      → find_referrers registry t ≡ []
      → check_refs_in p registry ≡ []
      → check_refs_in q registry ≡ []
  unfolding find_referrers check_refs_in
  check_refs_in-shrink registry h c =
      let (h1, ha) = append-nil_split _ _ h in
      let (h2, hb) = append-nil_split _ _ ha in
      let (h3, h4) = append-nil_split _ _ hb in
      let (c1, ca) = append-nil_split _ _ c in
      let (c2, cb) = append-nil_split _ _ ca in
      let (c3, c4) = append-nil_split _ _ cb in
      append-nil_join (for_each-nil_both registry.object_types _ _ _ check_object-shrink h1 c1) (
        append-nil_join (for_each-nil_both registry.link_types _ _ _ check_link-shrink h2 c2) (
          append-nil_join
            (for_each-nil_both registry.interface_types _ _ _ check_interface-shrink h3 c3)
            (for_each-nil_both registry.action_types _ _ _ check_action-shrink h4 c4)))
