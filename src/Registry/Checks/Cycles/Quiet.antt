-- ===== src/Registry/Checks/Cycles/Quiet.antt =====
-- When no interface extends itself through others, the search of
-- onto_platform/registry/checks/interface_category.py adds no finding.
use mathlib.Core.WellFounded.{Acc}
use mathlib.Core.List.{Memᴰ}
use mathlib.Core.Path.{subst}
use lingyunzhi_os_backend.Base.{
  ℕ, zero, suc, String, ◌≡◌, refl, sym, ◌∙◌, inl, inr, true, List, [], ◌∷◌, ◌++◌, ◌==◌, eq_iff,
  Bool-cases,
}
use lingyunzhi_os_backend.Dict.{Dict, lookup, has}
use lingyunzhi_os_backend.ProtoModels.{InterfaceTypeDefinition}
use lingyunzhi_os_backend.Registry.Checks.Cycles.{Search, color_of, extended, visit_all, visit}
use lingyunzhi_os_backend.Registry.Checks.Cycles.Frame.{
  painted, color_of-painted, Frame, color-cases, ancestors, visit_done, visit_new, visit-Frame,
}
use lingyunzhi_os_backend.Registry.Checks.Cycles.Acyclic.{Parent, Grounded}

-- One or more steps of `extends` lead from the second to the first.
pub data Ancestor (ifaces : Dict InterfaceTypeDefinition) : String → String → Type 0 where
  direct : {y x : String} → Parent ifaces y x → Ancestor ifaces y x
  through : {y z x : String} → Ancestor ifaces y z → Parent ifaces z x → Ancestor ifaces y x

module _ (ifaces : Dict InterfaceTypeDefinition) where
  above : {z x w : String} → Parent ifaces z x → Ancestor ifaces x w → Ancestor ifaces z w
  above p (direct q) = through (direct p) q
  above p (through a q) = through (above p a) q

  -- A circle has no least element.
  not_circular : {x : String} → Grounded ifaces x → Ancestor ifaces x x → ⊥
  not_circular (Acc.intro x below) (direct p) = not_circular (below x p) (direct p)
  not_circular (Acc.intro x below) (through {z = z} a p) = not_circular (below z p) (above p a)

  abbrev pub Acyclic : Type 0
  Acyclic = (k : String) → has k ifaces ≡ true → Grounded ifaces k

  -- What is in progress lies on the way to the node.
  abbrev pub OnTheWay : Search → String → Type 0
  OnTheWay s x = (k : String) → color_of s k ≡ 1 → Ancestor ifaces x k

  visit_all_quiet :
      (one : String → Search → Search)
      → ((y : String) (s : Search) → Frame s (one y s))
      → (ys : List String) (s : Search)
      → ((y : String) (t : Search)
          → Memᴰ y ys
          → has y ifaces ≡ true
          → OnTheWay t y
          → (one y t).found ≡ t.found)
      → ((y : String) → Memᴰ y ys → has y ifaces ≡ true → OnTheWay s y)
      → (visit_all one ifaces ys s).found ≡ s.found
  unfolding visit_all
  visit_all_quiet one f [] s quiet way = refl
  visit_all_quiet one f (y ∷ ys) s quiet way = elim (Bool-cases (has y ifaces)) [
    | inl here ↦
        rw (visit_all, here)
          (visit_all_quiet one f ys (one y s) (λ z t m. quiet z t (Memᴰ.tail m))
              (λ z m h k grey. way z (Memᴰ.tail m) h k ((f y s).in_progress k grey))
            ∙ quiet y s (Memᴰ.head refl) here (way y (Memᴰ.head refl) here))
    | inr absent ↦
        rw (visit_all, absent)
          (visit_all_quiet one f ys s (λ z t m. quiet z t (Memᴰ.tail m))
            (λ z m. way z (Memᴰ.tail m)))
  ]

  entered-OnTheWay :
      (rid y : String) (s : Search)
      → OnTheWay s rid
      → Parent ifaces y rid
      → OnTheWay (painted rid 1 s) y
  entered-OnTheWay rid y s way p k grey = elim (Bool-cases (rid == k)) [
    | inl same ↦ direct (subst (Parent ifaces y) ((eq_iff rid k).0 same) p)
    | inr other ↦ above p (way k (sym (color_of-painted rid k 1 s ∙ rw other refl) ∙ grey))
  ]

  pub visit_quiet :
      Acyclic
      → (fuel : ℕ) (rid : String) (stack : List String) (s : Search) → has rid ifaces ≡ true
      → OnTheWay s rid
      → (visit ifaces fuel rid stack s).found ≡ s.found
  unfolding ancestors visit
  visit_quiet acyclic zero rid stack s here way = refl
  visit_quiet acyclic (suc fuel) rid stack s here way = elim (color-cases (color_of s rid)) [
    | inl grey ↦ absurd (not_circular (acyclic rid here) (way rid grey))
    | inr (inl black) ↦ rw (visit_done ifaces fuel rid stack s black) refl
    | inr (inr (not_grey, not_black)) ↦ rw (visit_new ifaces fuel rid stack s not_grey not_black) (
        visit_all_quiet (λ parent. visit ifaces fuel parent (stack ++ rid ∷ []))
          (λ y u. visit-Frame ifaces fuel y (stack ++ rid ∷ []) u) (extended (lookup rid ifaces))
          (painted rid 1 s) (λ y t m h w. visit_quiet acyclic fuel y (stack ++ rid ∷ []) t h w)
          (λ y m h. entered-OnTheWay rid y s way (m, h)))
  ]
