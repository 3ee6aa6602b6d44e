-- ===== src/Registry/Crud/Validated.antt =====
-- What it means that `_validate_or_raise` of onto_platform/registry/crud.py let a registry pass.
use lingyunzhi_os_backend.Base.{
  String, ◌≡◌, ◌≢◌, refl, false, List, [], ◌∷◌, arith, select, ok, err,
}
use lingyunzhi_os_backend.ProtoModels.{OntologyRegistry}
use lingyunzhi_os_backend.Registry.Findings.{Finding, errors}
use lingyunzhi_os_backend.Registry.Validator.{validate, has_errors}
use lingyunzhi_os_backend.Registry.Crud.{validated, raise_if_any}
use lingyunzhi_os_backend.Registry.Crud.Errors.{CrudError, validation_failed}

-- The validator finds no error, warnings aside.
abbrev pub IsClean : OntologyRegistry → List String → Type 0
IsClean reg connection_ids = has_errors (validate reg connection_ids) ≡ false

-- There is an error exactly where the list of errors is not empty.
pub has_errors_of_nil : (fs : List Finding) → errors fs ≡ [] → has_errors fs ≡ false
unfolding errors select has_errors
has_errors_of_nil [] h = refl
has_errors_of_nil (f ∷ fs) h = ground (arith, has_errors_of_nil fs)

pub errors-nil : (fs : List Finding) → has_errors fs ≡ false → errors fs ≡ []
unfolding errors select has_errors
errors-nil [] h = refl
errors-nil (f ∷ fs) h = ground (arith, errors-nil fs)

raise_if_any-ok :
    (c : OntologyRegistry) (fs : List Finding) {r : OntologyRegistry}
    → raise_if_any c fs ≡ ok r
    → (r ≡ c) × (fs ≡ [])
unfolding raise_if_any
raise_if_any-ok c [] h = (cc, refl)
raise_if_any-ok c (f ∷ fs) h = cc

raise_if_any-err :
    (c : OntologyRegistry) (fs : List Finding) {e : CrudError}
    → raise_if_any c fs ≡ err e
    → (e ≡ validation_failed fs) × (fs ≢ [])
unfolding raise_if_any
raise_if_any-err c [] h = cc
raise_if_any-err c (f ∷ fs) h = (cc, λ p. cc)

-- What passes is the candidate itself, and it is clean.
pub validated-ok :
    (c : OntologyRegistry) (ids : List String) {r : OntologyRegistry}
    → validated c ids ≡ ok r
    → (r ≡ c) × IsClean r ids
unfolding validated
validated-ok c ids h =
    let (same, none_left) = raise_if_any-ok c (errors (validate c ids)) h in
    (same, rw same (has_errors_of_nil (validate c ids) none_left))

-- What is raised are all errors of the candidate, at least one.
pub validated-err :
    (c : OntologyRegistry) (ids : List String) {e : CrudError}
    → validated c ids ≡ err e
    → (e ≡ validation_failed (errors (validate c ids))) × (errors (validate c ids) ≢ [])
unfolding validated
validated-err c ids h = raise_if_any-err c (errors (validate c ids)) h

-- A clean candidate passes.
pub validated_of_IsClean :
    (c : OntologyRegistry) (ids : List String) → IsClean c ids → validated c ids ≡ ok c
unfolding validated raise_if_any
validated_of_IsClean c ids h = rw (errors-nil (validate c ids) h)
