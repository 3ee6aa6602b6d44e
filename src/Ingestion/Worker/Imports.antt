-- ===== src/Ingestion/Worker/Imports.antt =====
-- What `run_one_job` of onto_platform/ingestion/workers.py does to the registries when nobody else
-- writes them.
use lingyunzhi_os_backend.Base.{
  ℕ, ◌+◌, String, ◌≡◌, ◌≢◌, ◌⊎◌, refl, sym, ◌∙◌, ap, true, List, Option, none, some, inl, inr,
  Result, ok, err, ok_injective, ◌>>=◌,
}
use mathlib.Core.Path.{subst}
use lingyunzhi_os_backend.Dict.{lookup}
use lingyunzhi_os_backend.ProtoModels.{OntologyRegistry}
use lingyunzhi_os_backend.Registry.Crud.Errors.{Crud, validation_failed, referenced, key_error}
use lingyunzhi_os_backend.Registry.Crud.Validated.{IsClean, validated-ok}
use lingyunzhi_os_backend.Registry.Imports.{ImportMode, combine, import_into_registry}
use lingyunzhi_os_backend.Registry.Store.{
  Registries, RegistrySnapshot, staging, save, row, write_row, updated,
}
use lingyunzhi_os_backend.Registry.Store.Locking.{save-ok}
use lingyunzhi_os_backend.Registry.Lifecycle.{
  crud_error, stale_version, undo_unavailable, Lifecycle, from_crud,
}
use lingyunzhi_os_backend.Ingestion.Agent.{AgentDecision}
use lingyunzhi_os_backend.Ingestion.Jobs.{Job, imported, StatusUpdate, with_status}
use lingyunzhi_os_backend.Ingestion.Jobs.Rows.{if_found, lookup-set_status}
use lingyunzhi_os_backend.Ingestion.Worker.{
  ExtractedDocument, Extraction, documents, file_failed, extraction_stopped, extraction_broken,
  RunEnd, decided, timed_out, capped, run_cancelled, driver_error, Tables, Ended, World, Moment,
  store_import, stored_as, report, after_import, import_result, after_run, with_job,
  after_extraction, run_one_job,
}
use lingyunzhi_os_backend.Ingestion.Worker.Ends.{
  IsPresent, IsHandled, none-some, store_import-IsHandled, report-IsPresent,
}

-- The table after an import of `reg`.
abbrev pub with_import : ℕ → Registries → OntologyRegistry → Registries
with_import now t reg =
    write_row t staging (updated (row t staging) now reg (some "ingestion") none)

stored_as-ok :
    (reg : OntologyRegistry) (r : Result _ (Registries × ℕ)) {reg' : OntologyRegistry}
    {t : Registries} {v : ℕ}
    → stored_as reg r ≡ ok (reg', t, v)
    → (reg ≡ reg') × (r ≡ ok (t, v))
unfolding stored_as
stored_as-ok reg (ok (t, v)) h = (ap (λ p. p.0) (ok_injective h), cc)
stored_as-ok reg (err e) h = absurd cc

after_crud :
    {A : Type 0} {B : Type 0} (c : Crud A) (f : A → Lifecycle B) {b : B}
    → (from_crud c >>= f) ≡ ok b
    → (a : A) × (c ≡ ok a) × (f a ≡ ok b)
after_crud (ok a) f h = (a, refl, h)
after_crud (err e) f h = absurd cc

-- What is stored was validated, and it is the new staging row.
pub store_import-ok :
    (now : ℕ) (t : Registries) (snap : RegistrySnapshot) (wr : OntologyRegistry) (mode : ImportMode)
    (ids : List String) {reg : OntologyRegistry} {u : Registries} {v : ℕ}
    → store_import now t snap wr mode ids ≡ ok (reg, u, v)
    → IsClean reg ids × (u ≡ with_import now t reg) × (v ≡ (row t staging).version + 1)
unfolding store_import import_into_registry
store_import-ok now t snap wr mode ids h =
    let (r, e, f) = after_crud (import_into_registry snap.registry wr mode ids) _ h in
    let (same, e') =
      stored_as-ok r (save now t staging r (some snap.version) (some "ingestion") none) f in
    let (_, wrote, grown) =
      save-ok now t staging r (some snap.version) (some "ingestion") none e' in
    (
      subst (λ x. IsClean x ids) same (validated-ok (combine snap.registry wr mode) ids e).1,
      wrote ∙ ap (with_import now t) same,
      grown,
    )

module _ {ℓ} {Raised : Type ℓ} (w : World Raised) (job_id : String) where
  -- The job is imported and staging holds the validated registry, or the registries are as before.
  abbrev pub Stored : Registries → Tables Raised → Job Raised → Type 0
  Stored start t job =
      ((job.status ≢ imported) × (t.registries ≡ start))
      ⊎ ((reg : OntologyRegistry) × (job.status ≡ imported)
          × IsClean reg w.connection_ids
          × (t.registries ≡ with_import (w.time Moment.at_import) start reg)
          × (job.staging_version_after ≡ some ((row start staging).version + 1)))

  abbrev pub EndsStored : Registries → Ended Raised → Type ℓ
  EndsStored start e =
      (job : Job Raised) × (lookup job_id e.tables.jobs ≡ some job) × Stored start e.tables job

  module _
      (keeps : (m : Moment) (t : Tables Raised)
        → IsPresent w job_id t
        → IsPresent w job_id (w.others m t))
      (leaves : (m : Moment) (t : Tables Raised) → (w.others m t).registries ≡ t.registries) where
    report-registries :
        (m : Moment) (u : StatusUpdate Raised) (t : Tables Raised)
        → (report w job_id m u t).registries ≡ t.registries
    unfolding report
    report-registries m u t = leaves m t

    report-Stored :
        (start : Registries) (m : Moment) (u : StatusUpdate Raised) (t : Tables Raised)
        → ((job : Job Raised) → Stored start (report w job_id m u t) (with_status (w.time m) u job))
        → IsPresent w job_id t
        → EndsStored start (record { tables = report w job_id m u t; returned = true })
    unfolding report
    report-Stored start m u t stored p =
        let (job, found) = keeps m t p in
        (
          with_status (w.time m) u job,
          lookup-set_status (w.time m) job_id u (w.others m t).jobs
              ∙ ap (if_found (with_status (w.time m) u)) found,
          stored job,
        )

    unstored :
        (start : Registries) (m : Moment) (u : StatusUpdate Raised) (t : Tables Raised)
        → u.status ≢ imported
        → t.registries ≡ start
        → IsPresent w job_id t
        → EndsStored start (record { tables = report w job_id m u t; returned = true })
    unfolding with_status
    unstored start m u t other e p =
        report-Stored start m u t (λ job. inl (other, report-registries m u t ∙ e)) p

    after_import-Stored :
        (start : Registries) (decisions : List (AgentDecision Raised)) (t : Tables Raised)
        (r : Lifecycle (OntologyRegistry × Registries × ℕ))
        → IsPresent w job_id t
        → t.registries ≡ start
        → IsHandled r
        → ((reg : OntologyRegistry) (u : Registries) (v : ℕ)
            → r ≡ ok (reg, u, v)
            → IsClean reg w.connection_ids
              × (u ≡ with_import (w.time Moment.at_import) start reg)
              × (v ≡ (row start staging).version + 1))
        → EndsStored start (after_import w job_id decisions t r)
    unfolding after_import with_status
    after_import-Stored start decisions t (ok (reg, registries, version)) p e h good =
        let (clean, wrote, grown) = good reg registries version refl in
        report-Stored start Moment.at_end _ (record t { registries = registries })
          (λ job.
            inr (reg, refl, clean, report-registries Moment.at_end _ _ ∙ wrote, ap some grown))
          p
    after_import-Stored start decisions t (err (stale_version x)) p e h good =
        unstored start Moment.at_end _ t (λ q. cc) e p
    after_import-Stored start decisions t (err (crud_error (validation_failed fs))) p e h good =
        unstored start Moment.at_end _ t (λ q. cc) e p
    after_import-Stored start decisions t (err (crud_error (referenced rid rs))) p e h good =
        absurd h
    after_import-Stored start decisions t (err (crud_error (key_error k))) p e h good = absurd h
    after_import-Stored start decisions t (err undo_unavailable) p e h good = absurd h

    after_run-Stored :
        (start : Registries) (snap : RegistrySnapshot) (wr : OntologyRegistry) (mode : ImportMode)
        (t : Tables Raised) (e : RunEnd Raised)
        → IsPresent w job_id t
        → t.registries ≡ start
        → EndsStored start (after_run w job_id snap wr mode t e)
    unfolding after_run import_result
    after_run-Stored start snap wr mode t (decided decisions) p e =
        let same =
          leaves Moment.at_import (report w job_id Moment.at_agent_end _ t)
          ∙ report-registries Moment.at_agent_end _ t
          ∙ e in
        after_import-Stored start decisions _ _
          (keeps Moment.at_import _ (report-IsPresent w job_id keeps Moment.at_agent_end _ t p))
          same (store_import-IsHandled (w.time Moment.at_import) _ snap wr mode w.connection_ids)
          (λ reg u v h.
            let (clean, wrote, grown) =
              store_import-ok (w.time Moment.at_import) _ snap wr mode w.connection_ids h in
            (
              clean,
              wrote ∙ ap (λ u. with_import (w.time Moment.at_import) u reg) same,
              grown ∙ ap (λ (u : Registries). (row u staging).version + 1) same,
            ))
    after_run-Stored start snap wr mode t timed_out p e =
        unstored start Moment.at_agent_end _ t (λ q. cc) e p
    after_run-Stored start snap wr mode t capped p e =
        unstored start Moment.at_agent_end _ t (λ q. cc) e p
    after_run-Stored start snap wr mode t run_cancelled p e =
        unstored start Moment.at_agent_end _ t (λ q. cc) e p
    after_run-Stored start snap wr mode t (driver_error x) p e =
        unstored start Moment.at_agent_end _ t (λ q. cc) e p

    with_job-Stored :
        (start : Registries) (docs : List ExtractedDocument) (t : Tables Raised)
        (found : Option (Job Raised))
        → lookup job_id t.jobs ≡ found
        → IsPresent w job_id t
        → t.registries ≡ start
        → EndsStored start (with_job w job_id docs t found)
    unfolding with_job
    with_job-Stored start docs t none e (job, found) same = absurd (none-some (sym e ∙ found))
    with_job-Stored start docs t (some job) e p same =
        after_run-Stored start _ _ job.mode t _ p same

    after_extraction-Stored :
        (start : Registries) (t : Tables Raised) (x : Extraction Raised)
        → IsPresent w job_id t
        → t.registries ≡ start
        → EndsStored start (after_extraction w job_id t x)
    unfolding after_extraction
    after_extraction-Stored start t (documents docs) p e =
        with_job-Stored start docs _ _ refl
          (report-IsPresent w job_id keeps Moment.at_agent_start _ t p)
          (report-registries Moment.at_agent_start _ t ∙ e)
    after_extraction-Stored start t (file_failed filename x) p e =
        unstored start Moment.at_failed_extraction _ t (λ q. cc) e p
    after_extraction-Stored start t extraction_stopped p e =
        unstored start Moment.at_failed_extraction _ t (λ q. cc) e p
    after_extraction-Stored start t (extraction_broken x) p e =
        unstored start Moment.at_failed_extraction _ t (λ q. cc) e p

    -- If the job's row is there, and nobody else deletes it or writes the registries during the run,
    -- the job ends in one of two ways. Either its status is not imported and the three registries are
    -- as they were; or its status is imported, the new staging row holds a registry that validates
    -- without errors, with the next version and the label ingestion, the row of the job records that
    -- version, and the production and previous rows are as they were.
    pub run_one_job-Stored :
        (t : Tables Raised)
        → IsPresent w job_id t
        → EndsStored t.registries (run_one_job w job_id t)
    unfolding run_one_job
    run_one_job-Stored t p =
        after_extraction-Stored t.registries _ _
          (report-IsPresent w job_id keeps Moment.at_start _ t p)
          (report-registries Moment.at_start _ t)
