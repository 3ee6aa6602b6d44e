-- ===== src/Registry/Checks/Cycles/Correct.antt =====
-- The outer loop of the search of onto_platform/registry/checks/interface_category.py, and what the
-- whole search decides.
use mathlib.Core.WellFounded.{Acc}
use mathlib.Core.Path.{subst}
use lingyunzhi_os_backend.Base.{
  ℕ, String, ◌≡◌, ◌<◌, ◌≤◌, ◌+◌, refl, ap, sym, ◌∙◌, inl, inr, true, [], ◌∷◌, arith, ◌==◌, eq_iff,
  eq_refl, nat_eq, if◌then◌else◌, Bool-cases, ◌⊎◌, length, ◌↔◌,
}
use lingyunzhi_os_backend.Dict.{Dict, lookup, has}
use lingyunzhi_os_backend.ProtoModels.{InterfaceTypeDefinition}
use lingyunzhi_os_backend.Registry.Checks.Cycles.{
  Search, or_white, color_of, visit, search_from, start, check_cycles,
}
use lingyunzhi_os_backend.Registry.Checks.Cycles.Frame.{Frame, Frame-refl, Frame-trans, visit-Frame}
use lingyunzhi_os_backend.Registry.Checks.Cycles.Fuel.{or_true}
use lingyunzhi_os_backend.Registry.Checks.Cycles.Quiet.{Acyclic, visit_quiet}
use lingyunzhi_os_backend.Registry.Checks.Cycles.Acyclic.{
  Parent, Grounded, DoneGrounded, Sound, news, news-length, news-Fewer, visit-Sound,
}

two_colors : (c d : ℕ) → (c ≡ 0) ⊎ (c ≡ 2) → (c ≤ 2 → d ≤ 2) → (d ≡ 1 → c ≡ 1) → (d ≡ 0) ⊎ (d ≡ 2)
two_colors c d = ground arith

-- Between two calls of `visit` from the outer loop nothing is in progress.
abbrev Idle : Search → Type 0
Idle s = (k : String) → (color_of s k ≡ 0) ⊎ (color_of s k ≡ 2)

Frame-Idle : (s t : Search) → Frame s t → Idle s → Idle t
Frame-Idle s t f idle k =
    two_colors (color_of s k) (color_of t k) (idle k) (f.small k) (f.in_progress k)

not_one : (c : ℕ) → (c ≡ 0) ⊎ (c ≡ 2) → c ≡ 1 → ⊥
not_one c = ground arith

zero_two : ◌≡◌ {A = ℕ} 0 2 → ⊥
zero_two h = omega arith

Idle-start : Idle start
unfolding color_of or_white lookup
Idle-start k = inl refl

start_white : (k : String) → color_of start k ≡ 0
unfolding color_of or_white lookup
start_white k = refl

module _ (ifaces : Dict InterfaceTypeDefinition) where
  -- One round of the outer loop.
  round : ℕ → String → Search → Search
  round fuel rid s = if nat_eq (color_of s rid) 0 then visit ifaces fuel rid [] s else s

  round-Frame : (fuel : ℕ) (rid : String) (s : Search) → Frame s (round fuel rid s)
  unfolding round
  round-Frame fuel rid s = elim (Bool-cases (nat_eq (color_of s rid) 0)) [
    | inl new ↦ rw new (visit-Frame ifaces fuel rid [] s)
    | inr seen ↦ rw seen (Frame-refl s)
  ]

  round-Sound :
      (fuel : ℕ) (rid : String) (s : Search)
      → has rid ifaces ≡ true
      → news ifaces s < fuel
      → Idle s
      → (round fuel rid s).found ≡ []
      → DoneGrounded ifaces s
      → Sound ifaces rid (round fuel rid s)
  unfolding round
  round-Sound fuel rid s here enough idle none_found all = elim (idle rid) [
    | inl new ↦
        let same : round fuel rid s ≡ visit ifaces fuel rid [] s = rw new refl in
        subst (Sound ifaces rid) (sym same) (
          visit-Sound ifaces fuel rid [] s here enough
            (ap (λ (x : Search). x.found) (sym same) ∙ none_found) all)
    | inr black ↦
        let same : round fuel rid s ≡ s = rw black refl in
        subst (Sound ifaces rid) (sym same) (black, all)
  ]

  search_from-Frame :
      (fuel : ℕ) (d : Dict InterfaceTypeDefinition) (s : Search)
      → Frame s (search_from ifaces fuel d s)
  unfolding search_from round
  search_from-Frame fuel [] s = Frame-refl s
  search_from-Frame fuel ((rid, i) ∷ d) s =
      Frame-trans (round-Frame fuel rid s) (search_from-Frame fuel d (round fuel rid s))

  search_from-Grounded :
      (fuel : ℕ) (d : Dict InterfaceTypeDefinition) (s : Search)
      → ((k : String) → has k d ≡ true → has k ifaces ≡ true)
      → news ifaces s < fuel
      → Idle s
      → (search_from ifaces fuel d s).found ≡ []
      → DoneGrounded ifaces s
      → (k : String) → has k d ≡ true
      → Grounded ifaces k
  unfolding search_from round has
  search_from-Grounded fuel [] s within enough idle none_found all k here = absurd cc
  search_from-Grounded fuel ((rid, i) ∷ d) s within enough idle none_found all k here =
      let t = round fuel rid s in
      let f = search_from-Frame fuel d t in
      let fr = round-Frame fuel rid s in
      let (black, all_t) =
        round-Sound fuel rid s (within rid (rw eq_refl refl)) enough idle
          (f.found_before none_found) all in
      elim (Bool-cases (rid == k)) [
        | inl same ↦ subst (Grounded ifaces) ((eq_iff rid k).0 same) (all_t rid black)
        | inr other ↦
            search_from-Grounded fuel d t (λ j h. within j (rw h (or_true (rid == j))))
              (omega (arith, news-Fewer ifaces s t (fr.unseen))) (Frame-Idle s t fr idle) none_found
              all_t k (sym (rw other refl) ∙ here)
      ]

  round_quiet :
      Acyclic ifaces
      → (fuel : ℕ) (rid : String) (s : Search) → has rid ifaces ≡ true
      → Idle s
      → (round fuel rid s).found ≡ s.found
  unfolding round
  round_quiet acyclic fuel rid s here idle = elim (Bool-cases (nat_eq (color_of s rid) 0)) [
    | inl new ↦ rw new (
        visit_quiet ifaces acyclic fuel rid [] s here
          (λ k grey. absurd (not_one (color_of s k) (idle k) grey)))
    | inr seen ↦ rw seen refl
  ]

  search_from_quiet :
      Acyclic ifaces
      → (fuel : ℕ) (d : Dict InterfaceTypeDefinition) (s : Search)
      → ((k : String) → has k d ≡ true → has k ifaces ≡ true)
      → Idle s
      → (search_from ifaces fuel d s).found ≡ s.found
  unfolding search_from round has
  search_from_quiet acyclic fuel [] s within idle = refl
  search_from_quiet acyclic fuel ((rid, i) ∷ d) s within idle =
      search_from_quiet acyclic fuel d (round fuel rid s)
        (λ j h. within j (rw h (or_true (rid == j))))
        (Frame-Idle s (round fuel rid s) (round-Frame fuel rid s) idle)
      ∙ round_quiet acyclic fuel rid s (within rid (rw eq_refl refl)) idle

  -- Rule 3 reports nothing exactly when extending is well-founded on the registry's interfaces: from
  -- no interface does following `extends` through registered interfaces go on for ever.
  pub check_cycles_lem :
      (check_cycles ifaces ≡ []) ↔ ((k : String) → has k ifaces ≡ true → Acc (Parent ifaces) k)
  unfolding check_cycles
  check_cycles_lem = (
    λ none_found.
        search_from-Grounded (length ifaces + 1) ifaces start (λ k h. h)
          (omega (arith, news-length ifaces start)) Idle-start none_found
          (λ k h. absurd (zero_two (sym (start_white k) ∙ h))),
    λ acyclic. search_from_quiet acyclic (length ifaces + 1) ifaces start (λ k h. h) Idle-start,
  )
