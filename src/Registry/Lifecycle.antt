-- ===== src/Registry/Lifecycle.antt =====
-- onto_platform/registry/lifecycle.py. Each operation takes what others commit to the table while it
-- waits; `load` takes no lock, so its saves can be stale. The three operations under their own names
-- are the runs in which nothing else commits.
pub mod Outcomes
pub mod Undo
pub mod Reachable
pub mod Labels
pub mod Interference
use lingyunzhi_os_backend.Base.{
  ℕ, String, List, Option, none, some, Result, ok, err, ◌>>=◌, ◌==◌, if◌then◌else◌,
}
use lingyunzhi_os_backend.ProtoModels.{OntologyRegistry, empty_registry, empty_registry_version}
use lingyunzhi_os_backend.Registry.Crud.{validated}
use lingyunzhi_os_backend.Registry.Crud.Errors.{CrudError, Crud}
use lingyunzhi_os_backend.Registry.Store.{
  Env, staging, production, previous_production, Registries, RegistrySnapshot, StaleVersion, load,
  save,
}

pub data LifecycleError : Type 0 where
  crud_error : CrudError → LifecycleError
  stale_version : StaleVersion → LifecycleError
  -- `UndoUnavailableError`
  undo_unavailable : LifecycleError

abbrev pub Lifecycle : Type 0 → Type 0
Lifecycle A = Result LifecycleError A

abbrev pub from_crud {ℓ} : {A : Type ℓ} → Result CrudError A → Result LifecycleError A
from_crud (ok a) = ok a
from_crud (err e) = err (crud_error e)

-- What an operation leaves in the tables, also when it raises, and what it raises.
pub record Moved : Type 0 where
  pub registries : Registries
  pub raised : Option LifecycleError

abbrev moves : Registries → Moved
moves t = record { registries = t; raised = none }

abbrev pub fails : Registries → LifecycleError → Moved
fails t e = record { registries = t; raised = some e }

-- A call of `save` for its effect, and what comes after it.
abbrev pub saved : Registries → Result StaleVersion (Registries × ℕ) → (Registries → Moved) → Moved
saved t (ok p) next = next p.0
saved t (err e) next = fails t (stale_version e)

-- `_validate_or_raise`, and what comes after it.
abbrev pub checked : {A : Type 0} → Registries → Crud A → Moved → Moved
checked t (ok a) next = next
checked t (err e) next = fails t (crud_error e)

-- Where others may commit: `load` takes no lock.
pub data Await : Type 0 where
  before_second_load before_third_load before_save before_second_save : Await

module _ (meanwhile : Await → Registries → Registries) (now : ℕ) (token_label : Option String) where
  unfoldable pub promote_among : Registries → String → List String → Moved
  promote_among t commit_message connection_ids =
      let staged = load t staging in
      checked t (validated staged.registry connection_ids) (
        let t1 = meanwhile before_second_load t in
        let prod = load t1 production in
        let t2 = meanwhile before_third_load t1 in
        let prev = load t2 previous_production in
        let t3 = meanwhile before_save t2 in
        saved t3
          (save now t3 previous_production prod.registry (some prev.version) token_label none)
          (λ t4.
            let t5 = meanwhile before_second_save t4 in
            saved t5
              (save now t5 production staged.registry (some prod.version) token_label
                (some commit_message))
              moves))

  unfoldable pub revert_among : Registries → Moved
  revert_among t =
      let prod = load t production in
      let t1 = meanwhile before_second_load t in
      let staged = load t1 staging in
      let t2 = meanwhile before_save t1 in
      saved t2 (save now t2 staging prod.registry (some staged.version) token_label none) moves

  unfoldable pub undo_among : Registries → Moved
  undo_among t =
      let prev = load t previous_production in
      if prev.registry.version == empty_registry_version
      then fails t undo_unavailable
      else let t1 = meanwhile before_second_load t in
        let prod = load t1 production in
        let t2 = meanwhile before_save t1 in
        saved t2 (save now t2 production prev.registry (some prod.version) token_label none) (λ t3.
          let t4 = meanwhile before_second_save t3 in
          saved t4
            (save now t4 previous_production empty_registry (some prev.version) token_label none)
            moves)

abbrev pub quiet : Await → Registries → Registries
quiet a t = t

-- The table of an operation that does not raise.
abbrev pub result : Moved → Lifecycle Registries
result m = elim m.raised [ none ↦ ok m.registries | some e ↦ err e ]

-- The three operations as they run when nothing else commits during the call.
module _ (now : ℕ) (token_label : Option String) where
  unfoldable pub promote_staging_to_production :
      Registries → String → List String → Lifecycle Registries
  promote_staging_to_production t commit_message connection_ids =
      result (promote_among quiet now token_label t commit_message connection_ids)

  unfoldable pub revert_staging_to_production : Registries → Lifecycle Registries
  revert_staging_to_production t = result (revert_among quiet now token_label t)

  unfoldable pub undo_promote : Registries → Lifecycle Registries
  undo_promote t = result (undo_among quiet now token_label t)
