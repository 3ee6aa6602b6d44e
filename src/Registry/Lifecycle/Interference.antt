-- ===== src/Registry/Lifecycle/Interference.antt =====
-- `promote_staging_to_production` of onto_platform/registry/lifecycle.py while others save to the
-- same table between its statements.
use lingyunzhi_os_backend.Base.{
  ℕ, String, ◌≡◌, refl, sym, ◌∙◌, ap, inl, inr, Option, none, some, List, Result, ok, err,
}
use lingyunzhi_os_backend.ProtoModels.{OntologyRegistry}
use lingyunzhi_os_backend.Registry.Crud.{validated}
use lingyunzhi_os_backend.Registry.Crud.Errors.{Crud}
use lingyunzhi_os_backend.Registry.Crud.Validated.{IsClean, validated-ok}
use lingyunzhi_os_backend.Registry.Store.{
  Env, production, previous_production, Row, Registries, StaleVersion, row, updated, load, save,
}
use lingyunzhi_os_backend.Registry.Store.Locking.{save-ok, Saves, here, next, save-no_lost_update}
use lingyunzhi_os_backend.Registry.Lifecycle.{
  LifecycleError, Moved, saved, checked, Await, before_second_load, before_third_load, before_save,
  before_second_save, promote_among,
}

Saves-trans : {t u w : Registries} → Saves t u → Saves u w → Saves t w
Saves-trans a here = a
Saves-trans a (next now e registry expected label message b h) =
    next now e registry expected label message (Saves-trans a b) h

raising : {e : LifecycleError} → ◌≡◌ {A = Option LifecycleError} (some e) none → ⊥
raising h = cc

err_ok :
    {e : StaleVersion} {p : Registries × ℕ}
    → ◌≡◌ {A = Result StaleVersion (Registries × ℕ)} (err e) (ok p)
    → ⊥
err_ok h = cc

-- A save that is followed by no exception was made.
saved-none :
    (t : Registries) (r : Result StaleVersion (Registries × ℕ)) (rest : Registries → Moved)
    → (saved t r rest).raised ≡ none
    → (p : Registries × ℕ) × (r ≡ ok p) × (saved t r rest ≡ rest p.0)
saved-none t (ok p) rest h = (p, refl, refl)
saved-none t (err e) rest h = absurd (raising h)

checked-none :
    (t : Registries) (c : Crud OntologyRegistry) (rest : Moved)
    → (checked t c rest).raised ≡ none
    → (r : OntologyRegistry) × (c ≡ ok r) × (checked t c rest ≡ rest)
checked-none t (ok r) rest h = (r, refl, refl)
checked-none t (err e) rest h = absurd (raising h)

-- A save that expects the version of an earlier load overwrites the row that was loaded.
save-same_row :
    (now : ℕ) (e : Env) (registry : OntologyRegistry) (label message : Option String)
    {t u : Registries} {p : Registries × ℕ}
    → Saves t u
    → save now u e registry (some (load t e).version) label message ≡ ok p
    → row u e ≡ row t e
unfolding load
save-same_row now e registry label message saves h =
    elim (save-no_lost_update now e registry label message saves) [
      | inl (same_version, same_row, again) ↦ same_row
      | inr (newer, stale) ↦ absurd (err_ok (sym stale ∙ h))
    ]

-- The new production is the clean staging registry that was read, and the production registry that it
-- overwrites is the one that previous_production was given before.
abbrev pub KeepsProduction :
    ℕ → Option String → Registries → String → List String → Registries → Type 0
KeepsProduction now label t message ids after =
    IsClean t.staging_row.payload ids
    × (u : Registries) × (w : Registries) × Saves t u
    × Saves u w
    × (u.previous_row.payload ≡ w.production_row.payload)
    × (after ≡ record w {
      production_row = updated w.production_row now t.staging_row.payload label (some message);
    })

module _ (meanwhile : Await → Registries → Registries) (now : ℕ) (label : Option String)
    (t : Registries) (message : String) (ids : List String) where
  abbrev loaded : Registries
  loaded = meanwhile before_second_load t

  abbrev about_to_save : Registries
  about_to_save = meanwhile before_save (meanwhile before_third_load loaded)

  -- The two saves of a promotion that raises nothing.
  two_saves :
      (promote_among meanwhile now label t message ids).raised ≡ none
      → (r : OntologyRegistry) × (p : Registries × ℕ) × (q : Registries × ℕ) × (validated
            t.staging_row.payload ids
          ≡ ok r)
        × (save now about_to_save previous_production loaded.production_row.payload
              (some (load (meanwhile before_third_load loaded) previous_production).version)
              label
              none
            ≡ ok p)
        × (save now
              (meanwhile before_second_save p.0)
              production
              t.staging_row.payload
              (some (load loaded production).version)
              label
              (some message)
            ≡ ok q)
        × ((promote_among meanwhile now label t message ids).registries ≡ q.0)
  unfolding promote_among load
  two_saves h =
      let (r, passed, e1) = checked-none t (validated t.staging_row.payload ids) _ h in
      let (p, first, e2) =
        saved-none about_to_save
          (save now about_to_save previous_production loaded.production_row.payload
            (some (meanwhile before_third_load loaded).previous_row.version) label none)
          _ (ap (λ (m : Moved). m.raised) (sym e1) ∙ h) in
      let t5 = meanwhile before_second_save p.0 in
      let (q, second, e3) =
        saved-none t5
          (save now t5 production t.staging_row.payload (some loaded.production_row.version) label
            (some message))
          _ (ap (λ (m : Moved). m.raised) (sym e2 ∙ sym e1) ∙ h) in
      (r, p, q, passed, first, second, ap (λ (m : Moved). m.registries) (e1 ∙ e2 ∙ e3))

  -- Whatever others save to the table between the loads and the saves of a promotion: if it raises
  -- nothing, the staging registry that it read is clean and is the new production, and the production
  -- registry that this overwrites is the one that the slot previous_production was given before, at a
  -- state `u` from which saves alone lead to the overwritten state `w`.
  pub promote_among_lem :
      ((a : Await) (x : Registries) → Saves x (meanwhile a x))
      → (promote_among meanwhile now label t message ids).raised ≡ none
      → KeepsProduction now label t message ids
          (promote_among meanwhile now label t message ids).registries
  unfolding load
  promote_among_lem others h =
      let (r, p, q, passed, first, second, left) = two_saves h in
      let u = p.0 in
      let w = meanwhile before_second_save u in
      let (whole, clean) = validated-ok t.staging_row.payload ids {r = r} passed in
      let (_, wrote, _) = save-ok now about_to_save previous_production _ _ label none first in
      let (_, ended, _) = save-ok now w production _ _ label (some message) second in
      let reached : Saves loaded u =
        next now previous_production _ _ label none
          (Saves-trans (others before_third_load loaded) (others before_save _)) first in
      let same_row =
        save-same_row now production _ label (some message)
          (Saves-trans reached (others before_second_save u)) second in
      (
        rw whole at clean,
        u,
        w,
        Saves-trans (others before_second_load t) reached,
        others before_second_save u,
        ap (λ (x : Registries). x.previous_row.payload) wrote
            ∙ sym (ap (λ (x : Row). x.payload) same_row),
        left ∙ ended,
      )
