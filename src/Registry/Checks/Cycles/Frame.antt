-- ===== src/Registry/Checks/Cycles/Frame.antt =====
-- How the colours change in the search of onto_platform/registry/checks/interface_category.py.
use lingyunzhi_os_backend.Base.{
  ℕ, zero, suc, String, ◌≡◌, ◌≤◌, refl, inl, inr, Bool, true, false, List, [], ◌∷◌, ◌++◌, arith,
  ◌==◌, eq_iff, nat_eq, if◌then◌else◌, Bool-cases, ◌⊎◌, not, ◌&&◌,
}
use lingyunzhi_os_backend.Dict.{Dict, lookup, has, insert, lookup-insert}
use lingyunzhi_os_backend.ProtoModels.{InterfaceTypeDefinition}
use lingyunzhi_os_backend.Registry.Checks.Cycles.{
  Search, or_white, color_of, cycle_finding, extended, visit_all, visit,
}

-- The search after a node has been given a colour.
abbrev pub painted : String → ℕ → Search → Search
painted rid c s = record s { color = insert rid c s.color }

pub color_of-painted :
    (rid k : String) (c : ℕ) (s : Search)
    → color_of (painted rid c s) k ≡ (if rid == k then c else color_of s k)
unfolding color_of or_white
color_of-painted rid k c s = elim (Bool-cases (rid == k)) [
  | inl same ↦ rw lookup-insert (rw same refl)
  | inr other ↦ rw lookup-insert (rw other refl)
]

-- Not in progress and not done
abbrev pub is_new : ℕ → Bool
is_new c = not (nat_eq c 1) && not (nat_eq c 2)

-- What a part of the search leaves: done nodes stay done, no node stays in progress that was not,
-- seen nodes stay seen, and findings are only added.
pub record Frame (s t : Search) : Type 0 where
  pub done : (k : String) → color_of s k ≡ 2 → color_of t k ≡ 2
  pub in_progress : (k : String) → color_of t k ≡ 1 → color_of s k ≡ 1
  pub unseen : (k : String) → is_new (color_of t k) ≡ true → is_new (color_of s k) ≡ true
  pub small : (k : String) → color_of s k ≤ 2 → color_of t k ≤ 2
  pub found_before : t.found ≡ [] → s.found ≡ []

pub Frame-refl : (s : Search) → Frame s s
Frame-refl s = record {
  done = λ k h. h;
  in_progress = λ k h. h;
  unseen = λ k h. h;
  small = λ k h. h;
  found_before = λ h. h;
}

pub Frame-trans : {s t u : Search} → Frame s t → Frame t u → Frame s u
Frame-trans f g = record {
  done = λ k h. g.done k (f.done k h);
  in_progress = λ k h. f.in_progress k (g.in_progress k h);
  unseen = λ k h. f.unseen k (g.unseen k h);
  small = λ k h. g.small k (f.small k h);
  found_before = λ h. f.found_before (g.found_before h);
}

-- A new node is entered, its ancestors are searched, and it is left as done.
node-Frame :
    (rid : String) (s v : Search)
    → nat_eq (color_of s rid) 2 ≡ false
    → Frame (painted rid 1 s) v
    → Frame s (painted rid 2 v)
node-Frame rid s v new f = record {
  done = λ k h.
      grind (arith, color_of-painted rid k 2 v, color_of-painted rid k 1 s, eq_iff rid k, f.done k);
  in_progress = λ k h. grind (
    arith,
    color_of-painted rid k 2 v,
    color_of-painted rid k 1 s,
    eq_iff rid k,
    f.in_progress k,
  );
  unseen = λ k h.
      grind
        (arith, color_of-painted rid k 2 v, color_of-painted rid k 1 s, eq_iff rid k, f.unseen k);
  small = λ k h.
      grind
        (arith, color_of-painted rid k 2 v, color_of-painted rid k 1 s, eq_iff rid k, f.small k);
  found_before = λ h. f.found_before h;
}

append_nil_left : {A : Type 0} (xs : List A) (x : A) → (xs ++ x ∷ []) ≡ [] → xs ≡ []
append_nil_left [] x h = refl
append_nil_left (y ∷ ys) x h = absurd cc

-- The cases of a colour.
pub color-cases : (c : ℕ) → (c ≡ 1) ⊎ ((c ≡ 2) ⊎ ((nat_eq c 1 ≡ false) × (nat_eq c 2 ≡ false)))
color-cases c = ground arith

module _ (ifaces : Dict InterfaceTypeDefinition) where
  -- The ancestors that `visit` searches.
  unfoldable pub ancestors : ℕ → String → List String → Search → Search
  ancestors fuel rid stack s =
      visit_all (λ parent. visit ifaces fuel parent (stack ++ rid ∷ [])) ifaces
        (extended (lookup rid ifaces)) (painted rid 1 s)

  pub visit_in_progress :
      (fuel : ℕ) (rid : String) (stack : List String) (s : Search)
      → color_of s rid ≡ 1
      → visit ifaces (suc fuel) rid stack s
        ≡ record s { found = s.found ++ cycle_finding rid stack ∷ [] }
  unfolding visit
  visit_in_progress fuel rid stack s h = rw h refl

  pub visit_done :
      (fuel : ℕ) (rid : String) (stack : List String) (s : Search)
      → color_of s rid ≡ 2
      → visit ifaces (suc fuel) rid stack s ≡ s
  unfolding visit
  visit_done fuel rid stack s h = rw h refl

  pub visit_new :
      (fuel : ℕ) (rid : String) (stack : List String) (s : Search)
      → nat_eq (color_of s rid) 1 ≡ false
      → nat_eq (color_of s rid) 2 ≡ false
      → visit ifaces (suc fuel) rid stack s ≡ painted rid 2 (ancestors fuel rid stack s)
  unfolding visit ancestors
  visit_new fuel rid stack s h1 h2 = rw (h1, h2) refl

  pub visit_all-Frame :
      (one : String → Search → Search)
      → ((y : String) (s : Search) → Frame s (one y s))
      → (parents : List String) (s : Search) → Frame s (visit_all one ifaces parents s)
  unfolding visit_all
  visit_all-Frame one f [] s = Frame-refl s
  visit_all-Frame one f (p ∷ parents) s = elim (Bool-cases (has p ifaces)) [
    | inl here ↦ rw here (Frame-trans (f p s) (visit_all-Frame one f parents (one p s)))
    | inr elsewhere ↦ rw elsewhere (visit_all-Frame one f parents s)
  ]

  pub visit-Frame :
      (fuel : ℕ) (rid : String) (stack : List String) (s : Search)
      → Frame s (visit ifaces fuel rid stack s)
  unfolding visit ancestors color_of
  visit-Frame zero rid stack s = Frame-refl s
  visit-Frame (suc fuel) rid stack s = elim (color-cases (color_of s rid)) [
    | inl grey ↦ rw (visit_in_progress fuel rid stack s grey) (record {
      done = λ k h. h;
      in_progress = λ k h. h;
      unseen = λ k h. h;
      small = λ k h. h;
      found_before = append_nil_left s.found (cycle_finding rid stack);
    })
    | inr (inl black) ↦ rw (visit_done fuel rid stack s black) (Frame-refl s)
    | inr (inr (not_grey, not_black)) ↦ rw (visit_new fuel rid stack s not_grey not_black) (
        node-Frame rid s (ancestors fuel rid stack s) not_black (
          visit_all-Frame _ (λ y t. visit-Frame fuel y (stack ++ rid ∷ []) t)
            (extended (lookup rid ifaces)) (painted rid 1 s)))
  ]
