-- ===== src/Registry/Checks/Cycles/Fuel.antt =====
-- The fuel of the search of onto_platform/registry/checks/interface_category.py never runs out.
use lingyunzhi_os_backend.Base.{
  ℕ, zero, suc, String, ◌≡◌, ◌<◌, ◌≤◌, ◌+◌, ◌||◌, ◌==◌, eq_refl, refl, ap, sym, ◌∙◌, inl, inr, Bool,
  true, false, List, [], ◌∷◌, ◌++◌, arith, nat_eq, Bool-cases, length,
}
use lingyunzhi_os_backend.Dict.{Dict, lookup, has}
use lingyunzhi_os_backend.ProtoModels.{InterfaceTypeDefinition}
use lingyunzhi_os_backend.Registry.Checks.Cycles.{
  Search, color_of, extended, visit_all, visit, search_from, start, check_cycles,
}
use lingyunzhi_os_backend.Registry.Checks.Cycles.Frame.{
  painted, Frame, color-cases, ancestors, visit_in_progress, visit_done, visit_new, visit-Frame,
}
use lingyunzhi_os_backend.Registry.Checks.Cycles.Acyclic.{
  news, news-length, news-Fewer, news-entered,
}

pub or_true : (b : Bool) → (b || true) ≡ true
or_true true = refl
or_true false = refl

module _ (ifaces : Dict InterfaceTypeDefinition) where
  visit_all_same :
      (fuel : ℕ) (one other : String → Search → Search)
      → ((y : String) (s : Search) → Frame s (one y s))
      → ((y : String) (s : Search)
          → has y ifaces ≡ true
          → news ifaces s < fuel
          → other y s ≡ one y s)
      → (ys : List String) (s : Search) → news ifaces s < fuel
      → visit_all other ifaces ys s ≡ visit_all one ifaces ys s
  unfolding visit_all
  visit_all_same fuel one other f same [] s enough = refl
  visit_all_same fuel one other f same (y ∷ ys) s enough = elim (Bool-cases (has y ifaces)) [
    | inl here ↦
        let fewer = news-Fewer ifaces s (one y s) ((f y s).unseen) in
        rw (visit_all, here)
          (ap (visit_all other ifaces ys) (same y s here enough)
            ∙ visit_all_same fuel one other f same ys (one y s) (omega arith))
    | inr absent ↦ rw (visit_all, absent) (visit_all_same fuel one other f same ys s enough)
  ]

  visit_same :
      (fuel more : ℕ) (rid : String) (stack : List String) (s : Search)
      → has rid ifaces ≡ true
      → news ifaces s < fuel
      → fuel ≤ more
      → visit ifaces more rid stack s ≡ visit ifaces fuel rid stack s
  unfolding ancestors
  visit_same zero more rid stack s here enough le = absurd (omega arith)
  visit_same (suc fuel) zero rid stack s here enough le = absurd (omega arith)
  visit_same (suc fuel) (suc more) rid stack s here enough le =
      elim (color-cases (color_of s rid)) [
        | inl grey ↦
            visit_in_progress ifaces more rid stack s grey
            ∙ sym (visit_in_progress ifaces fuel rid stack s grey)
        | inr (inl black) ↦
            visit_done ifaces more rid stack s black
            ∙ sym (visit_done ifaces fuel rid stack s black)
        | inr (inr (not_grey, not_black)) ↦
            let entered = news-entered ifaces rid s here (rw (not_grey, not_black) refl) in
            visit_new ifaces more rid stack s not_grey not_black
            ∙ (ap (painted rid 2) (
                  visit_all_same fuel (λ parent. visit ifaces fuel parent (stack ++ rid ∷ []))
                    (λ parent. visit ifaces more parent (stack ++ rid ∷ []))
                    (λ y u. visit-Frame ifaces fuel y (stack ++ rid ∷ []) u)
                    (λ y u h e. visit_same fuel more y (stack ++ rid ∷ []) u h e (omega arith))
                    (extended (lookup rid ifaces)) (painted rid 1 s) (omega arith))
                ∙ sym (visit_new ifaces fuel rid stack s not_grey not_black))
      ]

  search_from_same :
      (fuel more : ℕ) (d : Dict InterfaceTypeDefinition) (s : Search)
      → ((k : String) → has k d ≡ true → has k ifaces ≡ true)
      → news ifaces s < fuel
      → fuel ≤ more
      → search_from ifaces more d s ≡ search_from ifaces fuel d s
  unfolding search_from has
  search_from_same fuel more [] s within enough le = refl
  search_from_same fuel more ((rid, i) ∷ d) s within enough le =
      elim (Bool-cases (nat_eq (color_of s rid) 0)) [
        | inl new ↦
            let f = visit-Frame ifaces fuel rid [] s in
            let fewer = news-Fewer ifaces s (visit ifaces fuel rid [] s) (f.unseen) in
            rw (search_from, new)
              (ap (search_from ifaces more d)
                  (visit_same fuel more rid [] s (within rid (rw eq_refl refl)) enough le)
                ∙ search_from_same fuel more d (visit ifaces fuel rid [] s)
                    (λ j h. within j (rw h (or_true (rid == j)))) (omega arith) le)
        | inr seen ↦
            rw (search_from, seen)
              (search_from_same fuel more d s (λ j h. within j (rw h (or_true (rid == j)))) enough
                le)
      ]

  -- The search never runs out of fuel: with any greater fuel it finds the same.
  pub check_cycles_terminates :
      (fuel : ℕ)
      → length ifaces < fuel
      → (search_from ifaces fuel ifaces start).found ≡ check_cycles ifaces
  unfolding check_cycles
  check_cycles_terminates fuel more =
      ap (λ (x : Search). x.found)
        (search_from_same (length ifaces + 1) fuel ifaces start (λ k h. h)
          (omega (arith, news-length ifaces start)) (omega arith))
