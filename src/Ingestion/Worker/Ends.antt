-- ===== src/Ingestion/Worker/Ends.antt =====
-- How the row of a job is left by `run_one_job` of onto_platform/ingestion/workers.py.
use lingyunzhi_os_backend.Base.{
  ℕ, String, ◌≡◌, refl, sym, ◌∙◌, true, List, Option, none, some, inl, inr, Result-cases, Result,
  ok, err, ap,
}
use lingyunzhi_os_backend.Dict.{lookup}
use lingyunzhi_os_backend.ProtoModels.{OntologyRegistry}
use lingyunzhi_os_backend.Registry.Crud.Errors.{validation_failed, referenced, key_error}
use lingyunzhi_os_backend.Registry.Crud.Validated.{validated-err}
use lingyunzhi_os_backend.Registry.Imports.{ImportMode, combine, import_into_registry}
use lingyunzhi_os_backend.Registry.Store.{Registries, RegistrySnapshot, StaleVersion, save, staging}
use lingyunzhi_os_backend.Registry.Lifecycle.{
  crud_error, stale_version, undo_unavailable, Lifecycle,
}
use lingyunzhi_os_backend.Ingestion.Agent.{AgentDecision}
use lingyunzhi_os_backend.Ingestion.Jobs.{Job, StatusUpdate, is_terminal, with_status}
use lingyunzhi_os_backend.Ingestion.Jobs.Rows.{if_found, lookup-set_status}
use lingyunzhi_os_backend.Ingestion.Worker.{
  ExtractedDocument, Extraction, documents, file_failed, extraction_stopped, extraction_broken,
  RunEnd, decided, timed_out, capped, run_cancelled, driver_error, Tables, Ended, World, Moment,
  store_import, stored_as, report, after_import, import_result, after_run, with_job,
  after_extraction, run_one_job,
}

-- The results of the import for which the worker has a branch.
abbrev pub IsHandled : {A : Type 0} → Lifecycle A → Type 0
IsHandled (ok a) = Unit
IsHandled (err (stale_version e)) = Unit
IsHandled (err (crud_error (validation_failed fs))) = Unit
IsHandled (err _) = ⊥

stored_as-IsHandled :
    (reg : OntologyRegistry) (r : Result StaleVersion (Registries × ℕ))
    → IsHandled (stored_as reg r)
unfolding stored_as
stored_as-IsHandled reg (ok p) = tt
stored_as-IsHandled reg (err e) = tt

-- The import raises no other error.
pub store_import-IsHandled :
    (now : ℕ) (t : Registries) (snap : RegistrySnapshot) (wr : OntologyRegistry) (mode : ImportMode)
    (ids : List String)
    → IsHandled (store_import now t snap wr mode ids)
unfolding store_import import_into_registry
store_import-IsHandled now t snap wr mode ids =
    elim (Result-cases (import_into_registry snap.registry wr mode ids)) [
      | inl (reg, e) ↦
          rw (IsHandled, import_into_registry, e)
            (stored_as-IsHandled reg
              (save now t staging reg (some snap.version) (some "ingestion") none))
      | inr (x, e) ↦ rw (e, (validated-err (combine snap.registry wr mode) ids e).0) tt
    ]

pub none-some {ℓ} : {A : Type ℓ} {a : A} → ◌≡◌ {A = Option A} none (some a) → ⊥
none-some h = cc

-- A row that says the job is over.
abbrev pub IsOver {ℓ} : {Raised : Type ℓ} → Job Raised → Type 0
IsOver job = (is_terminal job.status ≡ true) × (now : ℕ) × (job.finished_at ≡ some now)

module _ {ℓ} {Raised : Type ℓ} (w : World Raised) (job_id : String) where
  abbrev pub IsPresent : Tables Raised → Type ℓ
  IsPresent t = (job : Job Raised) × (lookup job_id t.jobs ≡ some job)

  abbrev pub IsDone : Ended Raised → Type ℓ
  IsDone e =
      (e.returned ≡ true)
      × (job : Job Raised) × (lookup job_id e.tables.jobs ≡ some job)
      × IsOver job

  module _ (keeps : (m : Moment) (t : Tables Raised) → IsPresent t → IsPresent (w.others m t)) where
    pub report-IsPresent :
        (m : Moment) (u : StatusUpdate Raised) (t : Tables Raised)
        → IsPresent t
        → IsPresent (report w job_id m u t)
    unfolding report
    report-IsPresent m u t p =
        let (job, found) = keeps m t p in
        (
          with_status (w.time m) u job,
          lookup-set_status (w.time m) job_id u (w.others m t).jobs
              ∙ ap (if_found (with_status (w.time m) u)) found,
        )

    report-IsDone :
        (m : Moment) (u : StatusUpdate Raised) (t : Tables Raised)
        → is_terminal u.status ≡ true
        → u.mark_finished ≡ true
        → IsPresent t
        → IsDone (record { tables = report w job_id m u t; returned = true })
    unfolding report with_status
    report-IsDone m u t over marked p =
        let (job, found) = keeps m t p in
        (
          refl,
          with_status (w.time m) u job,
          lookup-set_status (w.time m) job_id u (w.others m t).jobs
              ∙ ap (if_found (with_status (w.time m) u)) found,
          (over, w.time m, rw marked refl),
        )

    after_import-IsDone :
        (decisions : List (AgentDecision Raised)) (t : Tables Raised)
        (r : Lifecycle (OntologyRegistry × Registries × ℕ))
        → IsPresent t
        → IsHandled r
        → IsDone (after_import w job_id decisions t r)
    unfolding after_import
    after_import-IsDone decisions t (ok (reg, registries, version)) p h =
        report-IsDone Moment.at_end _ (record t { registries = registries }) refl refl p
    after_import-IsDone decisions t (err (stale_version e)) p h =
        report-IsDone Moment.at_end _ t refl refl p
    after_import-IsDone decisions t (err (crud_error (validation_failed fs))) p h =
        report-IsDone Moment.at_end _ t refl refl p
    after_import-IsDone decisions t (err (crud_error (referenced rid rs))) p h = absurd h
    after_import-IsDone decisions t (err (crud_error (key_error k))) p h = absurd h
    after_import-IsDone decisions t (err undo_unavailable) p h = absurd h

    after_run-IsDone :
        (snap : RegistrySnapshot) (wr : OntologyRegistry) (mode : ImportMode) (t : Tables Raised)
        (e : RunEnd Raised)
        → IsPresent t
        → IsDone (after_run w job_id snap wr mode t e)
    unfolding after_run import_result
    after_run-IsDone snap wr mode t (decided decisions) p =
        after_import-IsDone decisions _ _
          (keeps Moment.at_import _ (report-IsPresent Moment.at_agent_end _ t p))
          (store_import-IsHandled (w.time Moment.at_import) _ snap wr mode w.connection_ids)
    after_run-IsDone snap wr mode t timed_out p = report-IsDone Moment.at_agent_end _ t refl refl p
    after_run-IsDone snap wr mode t capped p = report-IsDone Moment.at_agent_end _ t refl refl p
    after_run-IsDone snap wr mode t run_cancelled p =
        report-IsDone Moment.at_agent_end _ t refl refl p
    after_run-IsDone snap wr mode t (driver_error e) p =
        report-IsDone Moment.at_agent_end _ t refl refl p

    with_job-IsDone :
        (docs : List ExtractedDocument) (t : Tables Raised) (found : Option (Job Raised))
        → lookup job_id t.jobs ≡ found
        → IsPresent t
        → IsDone (with_job w job_id docs t found)
    unfolding with_job
    with_job-IsDone docs t none e (job, found) = absurd (none-some (sym e ∙ found))
    with_job-IsDone docs t (some job) e p = after_run-IsDone _ _ job.mode t _ p

    after_extraction-IsDone :
        (t : Tables Raised) (x : Extraction Raised)
        → IsPresent t
        → IsDone (after_extraction w job_id t x)
    unfolding after_extraction
    after_extraction-IsDone t (documents docs) p =
        with_job-IsDone docs _ _ refl (report-IsPresent Moment.at_agent_start _ t p)
    after_extraction-IsDone t (file_failed filename e) p =
        report-IsDone Moment.at_failed_extraction _ t refl refl p
    after_extraction-IsDone t extraction_stopped p =
        report-IsDone Moment.at_failed_extraction _ t refl refl p
    after_extraction-IsDone t (extraction_broken e) p =
        report-IsDone Moment.at_failed_extraction _ t refl refl p

    -- If the job's row is there, nobody deletes it, and the task is cancelled nowhere but in the
    -- extraction and the run of the agent, the task returns, whatever the extractors, the model, the
    -- time limit, the token and the other transactions do, and leaves the row with a terminal status
    -- (imported, failed or cancelled) and a time at which the job finished.
    pub run_one_job-IsDone : (t : Tables Raised) → IsPresent t → IsDone (run_one_job w job_id t)
    unfolding run_one_job
    run_one_job-IsDone t p = after_extraction-IsDone _ _ (report-IsPresent Moment.at_start _ t p)
