-- ===== src/Registry/Checks/Cycles/Acyclic.antt =====
-- The search of onto_platform/registry/checks/interface_category.py against the relation that it
-- searches: when it finds nothing, no interface extends itself through others.
use mathlib.Core.WellFounded.{Acc}
use mathlib.Core.List.{Memᴰ}
use mathlib.Core.Path.{subst}
use lingyunzhi_os_backend.Base.{
  ℕ, zero, suc, String, ◌≡◌, ◌<◌, ◌≤◌, refl, ap, sym, ◌∙◌, inl, inr, Bool, true, false, List, [],
  ◌∷◌, ◌++◌, arith, ◌==◌, eq_iff, eq_refl, if◌then◌else◌, Bool-cases, length,
}
use lingyunzhi_os_backend.Dict.{Dict, lookup, has}
use lingyunzhi_os_backend.ProtoModels.{InterfaceTypeDefinition}
use lingyunzhi_os_backend.Registry.Checks.Cycles.{Search, color_of, extended, visit_all, visit}
use lingyunzhi_os_backend.Registry.Checks.Cycles.Frame.{
  painted, color_of-painted, is_new, Frame, color-cases, ancestors, visit_in_progress, visit_done,
  visit_new, visit_all-Frame, visit-Frame,
}

-- One interface of the registry is extended by another.
abbrev pub Parent : Dict InterfaceTypeDefinition → String → String → Type 0
Parent ifaces y x = Memᴰ y (extended (lookup x ifaces)) × (has y ifaces ≡ true)

-- How many entries are new.
pub news : Dict InterfaceTypeDefinition → Search → ℕ
news [] s = 0
news ((k, i) ∷ d) s = if is_new (color_of s k) then suc (news d s) else news d s

abbrev Fewer : Search → Search → Type 0
Fewer s t = (k : String) → is_new (color_of t k) ≡ true → is_new (color_of s k) ≡ true

pub news-Fewer : (d : Dict InterfaceTypeDefinition) (s t : Search) → Fewer s t → news d t ≤ news d s
unfolding news
news-Fewer [] s t f = omega arith
news-Fewer ((k, i) ∷ d) s t f = ground (arith, f k, news-Fewer d s t f)

entered-Fewer : (rid : String) (s : Search) → Fewer s (painted rid 1 s)
entered-Fewer rid s k h = grind (arith, color_of-painted rid k 1 s)

-- Entering a new entry leaves one entry less that is new.
pub news-entered :
    (d : Dict InterfaceTypeDefinition) (rid : String) (s : Search)
    → has rid d ≡ true
    → is_new (color_of s rid) ≡ true
    → news d (painted rid 1 s) < news d s
unfolding news has
news-entered [] rid s here new = absurd cc
news-entered ((k, i) ∷ d) rid s here new = ground (
  arith,
  color_of-painted rid k 1 s,
  eq_iff k rid,
  eq_iff rid k,
  news-Fewer d s (painted rid 1 s) (entered-Fewer rid s),
  news-entered d rid s,
  ap (λ (x : String). color_of s x),
)

pub news-length : (d : Dict InterfaceTypeDefinition) (s : Search) → news d s ≤ length d
unfolding news
news-length [] s = omega arith
news-length ((k, i) ∷ d) s = ground (arith, news-length d s)

true-false : ◌≡◌ {A = Bool} true false → ⊥
true-false h = cc

append_not_nil : {A : Type 0} (xs : List A) (x : A) → (xs ++ x ∷ []) ≡ [] → ⊥
append_not_nil [] x h = cc
append_not_nil (y ∷ ys) x h = cc

module _ (ifaces : Dict InterfaceTypeDefinition) where
  abbrev pub Grounded : String → Type 0
  Grounded x = Acc (Parent ifaces) x

  -- Nothing above a done node goes round in a circle.
  abbrev pub DoneGrounded : Search → Type 0
  DoneGrounded s = (k : String) → color_of s k ≡ 2 → Grounded k

  abbrev pub AllDone : List String → Search → Type 0
  AllDone ys s = (y : String) → Memᴰ y ys → has y ifaces ≡ true → color_of s y ≡ 2

  abbrev pub Sound : String → Search → Type 0
  Sound rid t = (color_of t rid ≡ 2) × DoneGrounded t

  painted-DoneGrounded :
      (rid : String) (s : Search) → DoneGrounded s → DoneGrounded (painted rid 1 s)
  painted-DoneGrounded rid s all k h = all k (grind (arith, color_of-painted rid k 1 s))

  left-DoneGrounded :
      (rid : String) (v : Search) → Grounded rid → DoneGrounded v → DoneGrounded (painted rid 2 v)
  left-DoneGrounded rid v g all k h = elim (Bool-cases (rid == k)) [
    | inl same ↦ subst Grounded ((eq_iff rid k).0 same) g
    | inr other ↦ all k (grind (arith, color_of-painted rid k 2 v))
  ]

  later-AllDone :
      (y : String) (ys : List String) (s t : Search)
      → Frame s t
      → color_of s y ≡ 2
      → AllDone ys t
      → AllDone (y ∷ ys) t
  later-AllDone y ys s t f black rest z (Memᴰ.head e) here = rw e (f.done y black)
  later-AllDone y ys s t f black rest z (Memᴰ.tail m) here = rest z m here

  skipped-AllDone :
      (y : String) (ys : List String) (t : Search)
      → has y ifaces ≡ false
      → AllDone ys t
      → AllDone (y ∷ ys) t
  skipped-AllDone y ys t absent rest z (Memᴰ.head e) here =
      absurd (true-false (sym here ∙ (ap (λ (x : String). has x ifaces) e ∙ absent)))
  skipped-AllDone y ys t absent rest z (Memᴰ.tail m) here = rest z m here

  visit_all-Sound :
      (fuel : ℕ) (one : String → Search → Search)
      → ((y : String) (s : Search) → Frame s (one y s))
      → ((y : String) (s : Search)
          → has y ifaces ≡ true
          → news ifaces s < fuel
          → (one y s).found ≡ []
          → DoneGrounded s
          → Sound y (one y s))
      → (ys : List String) (s : Search) → news ifaces s < fuel
      → (visit_all one ifaces ys s).found ≡ []
      → DoneGrounded s
      → AllDone ys (visit_all one ifaces ys s) × DoneGrounded (visit_all one ifaces ys s)
  unfolding visit_all
  visit_all-Sound fuel one frame sound [] s enough none_found all = ((λ y m here. elim m [ ]), all)
  visit_all-Sound fuel one frame sound (y ∷ ys) s enough none_found all =
      elim (Bool-cases (has y ifaces)) [
        | inl here ↦
            let t = visit_all one ifaces ys (one y s) in
            let same : visit_all one ifaces (y ∷ ys) s ≡ t = rw here refl in
            let none_in_t : t.found ≡ [] = ap (λ (x : Search). x.found) (sym same) ∙ none_found in
            let f = visit_all-Frame ifaces one frame ys (one y s) in
            let fewer = news-Fewer ifaces s (one y s) ((frame y s).unseen) in
            let (black, all_first) = sound y s here enough (f.found_before none_in_t) all in
            let (rest, all_rest) =
              visit_all-Sound fuel one frame sound ys (one y s) (omega arith) none_in_t all_first in
            subst (λ u. AllDone (y ∷ ys) u × DoneGrounded u) (sym same)
              (later-AllDone y ys (one y s) t f black rest, all_rest)
        | inr absent ↦
            let t = visit_all one ifaces ys s in
            let same : visit_all one ifaces (y ∷ ys) s ≡ t = rw absent refl in
            let none_in_t : t.found ≡ [] = ap (λ (x : Search). x.found) (sym same) ∙ none_found in
            let (rest, all_rest) = visit_all-Sound fuel one frame sound ys s enough none_in_t all in
            subst (λ u. AllDone (y ∷ ys) u × DoneGrounded u) (sym same)
              (skipped-AllDone y ys t absent rest, all_rest)
      ]

  pub visit-Sound :
      (fuel : ℕ) (rid : String) (stack : List String) (s : Search)
      → has rid ifaces ≡ true
      → news ifaces s < fuel
      → (visit ifaces fuel rid stack s).found ≡ []
      → DoneGrounded s
      → Sound rid (visit ifaces fuel rid stack s)
  unfolding ancestors
  visit-Sound zero rid stack s here enough none_found all = absurd (omega arith)
  visit-Sound (suc fuel) rid stack s here enough none_found all =
      elim (color-cases (color_of s rid)) [
        | inl grey ↦ absurd (
            append_not_nil s.found _ (
              ap (λ (x : Search). x.found) (sym (visit_in_progress ifaces fuel rid stack s grey))
              ∙ none_found))
        | inr (inl black) ↦ rw (visit_done ifaces fuel rid stack s black) (black, all)
        | inr (inr (not_grey, not_black)) ↦
            let same = visit_new ifaces fuel rid stack s not_grey not_black in
            let v = ancestors ifaces fuel rid stack s in
            let none_in_v : v.found ≡ [] = ap (λ (x : Search). x.found) (sym same) ∙ none_found in
            let entered = news-entered ifaces rid s here (rw (not_grey, not_black) refl) in
            let (parents_done, all_done) =
              visit_all-Sound fuel (λ parent. visit ifaces fuel parent (stack ++ rid ∷ []))
                (λ y u. visit-Frame ifaces fuel y (stack ++ rid ∷ []) u)
                (λ y u. visit-Sound fuel y (stack ++ rid ∷ []) u) (extended (lookup rid ifaces))
                (painted rid 1 s) (omega arith) none_in_v (painted-DoneGrounded rid s all) in
            let grounded : Grounded rid =
              Acc.intro rid (λ y p. all_done y (parents_done y p.0 p.1)) in
            subst (Sound rid) (sym same)
              (rw color_of-painted (rw eq_refl refl), left-DoneGrounded rid v grounded all_done)
      ]
