-- ===== src/Registry/Store/Locking.antt =====
-- The version numbers of onto_platform/registry/store.py as an optimistic lock.
use lingyunzhi_os_backend.Base.{
  ℕ, ◌+◌, ◌≤◌, ◌<◌, String, ◌≡◌, refl, sym, ◌∙◌, ap, ◌⊎◌, inl, inr, Bool, true, false, Option, some,
  arith, ok, err, nat_eq, nat_eq_refl, if-ok, if◌then◌else◌, Bool-cases,
}
use lingyunzhi_os_backend.ProtoModels.{OntologyRegistry}
use lingyunzhi_os_backend.Registry.Store.{
  Env, staging, production, previous_production, Row, Registries, row, write_row, is_stale, updated,
  save, load,
}

pub same_env : Env → Env → Bool
same_env staging staging = true
same_env production production = true
same_env previous_production previous_production = true
same_env _ _ = false

row-write_row :
    (t : Registries) (e f : Env) (r : Row)
    → row (write_row t e r) f ≡ (if same_env e f then r else row t f)
unfolding same_env
row-write_row t staging staging r = refl
row-write_row t production production r = refl
row-write_row t previous_production previous_production r = refl
row-write_row t _ _ r = refl

same_env-eq : (e f : Env) → same_env e f ≡ true → e ≡ f
unfolding same_env
same_env-eq staging staging h = refl
same_env-eq production production h = refl
same_env-eq previous_production previous_production h = refl
same_env-eq _ _ h = cc

-- A save that succeeds was not stale, and writes one row, with the next version.
pub save-ok :
    (now : ℕ) (t : Registries) (e : Env) (registry : OntologyRegistry) (expected : Option ℕ)
    (label message : Option String) {u : Registries} {v : ℕ}
    → save now t e registry expected label message ≡ ok (u, v)
    → (is_stale expected (row t e).version ≡ false)
      × (u ≡ write_row t e (updated (row t e) now registry label message))
      × (v ≡ (row t e).version + 1)
unfolding save
save-ok now t e registry expected label message h =
    let (fresh, same) = if-ok (is_stale expected (row t e).version) _ _ h in
    (fresh, ap (λ p. p.0) same, ap (λ p. p.1) same)

-- Any number of successful saves, by anybody.
pub data Saves (t : Registries) : Registries → Type 0 where
  here : Saves t t
  next :
      {u w : Registries} {v : ℕ} (now : ℕ) (e : Env) (registry : OntologyRegistry)
      (expected : Option ℕ) (label message : Option String)
      → Saves t u
      → save now u e registry expected label message ≡ ok (w, v)
      → Saves t w

-- A save leaves a row as it is or gives it the next version.
save-row :
    (now : ℕ) (t : Registries) (e f : Env) (registry : OntologyRegistry) (expected : Option ℕ)
    (label message : Option String) {u : Registries} {v : ℕ}
    → save now t e registry expected label message ≡ ok (u, v)
    → (row u f ≡ row t f) ⊎ ((row u f).version ≡ (row t f).version + 1)
save-row now t e f registry expected label message {u} {v} h =
    let written = (save-ok now t e registry expected label message {u = u} {v = v} h).1 in
    elim (Bool-cases (same_env e f)) [
      | inl yes_ ↦ inr (rw written (rw row-write_row (rw yes_ (rw (same_env-eq e f yes_) refl))))
      | inr no_ ↦ inl (rw written (rw row-write_row (rw no_ refl)))
    ]

pub version-le : {t u : Registries} (f : Env) → Saves t u → (row t f).version ≤ (row u f).version
version-le f here = omega arith
version-le f (next now e registry expected label message s h) =
    elim (save-row now _ e f registry expected label message h) [
      | inl same ↦ omega (arith, version-le f s, ap (λ (r : Row). r.version) same)
      | inr grown ↦ omega (arith, version-le f s)
    ]

-- If a row has the version that it had, nobody has written it in between.
pub row-Saves :
    {t u : Registries} (f : Env)
    → Saves t u
    → (row u f).version ≡ (row t f).version
    → row u f ≡ row t f
row-Saves f here h = refl
row-Saves f (next now e registry expected label message s k) h =
    elim (save-row now _ e f registry expected label message k) [
      | inl same ↦ same ∙ row-Saves f s (sym (ap (λ (r : Row). r.version) same) ∙ h)
      | inr grown ↦ absurd (omega (arith, version-le f s))
    ]

is_stale-false : (a c : ℕ) → is_stale (some a) c ≡ false → c ≡ a
is_stale-false a c h = ground arith

-- No update is lost. A caller loads an environment; others save any number of times; the caller
-- saves with the version that it loaded. If that succeeds, nobody has written the environment in
-- between, and if anybody has, the save raises with the two versions.
pub save-no_lost_update :
    {t u : Registries} (now : ℕ) (e : Env) (registry : OntologyRegistry)
    (label message : Option String)
    → Saves t u
    → (((row u e).version ≡ (row t e).version)
        × (row u e ≡ row t e)
        × (save now u e registry (some (load t e).version) label message
            ≡ ok (
              write_row u e (updated (row t e) now registry label message),
              (row t e).version + 1,
            )))
      ⊎ (((row t e).version < (row u e).version)
          × (save now u e registry (some (load t e).version) label message
              ≡ err (record {
                env = e;
                expected_version = (row t e).version;
                current_version = (row u e).version;
              })))
unfolding save load
save-no_lost_update {t} {u} now e registry label message s =
    elim (Bool-cases (nat_eq (row u e).version (row t e).version)) [
      | inl equal ↦
          let same = row-Saves e s (ground arith) in
          inl (ground arith, same, rw same (rw nat_eq_refl refl))
      | inr other ↦ inr (ground (arith, version-le e s), rw other refl)
    ]
