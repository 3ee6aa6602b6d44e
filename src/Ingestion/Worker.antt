-- ===== src/Ingestion/Worker.antt =====
-- `run_one_job` of onto_platform/ingestion/workers.py over the tables it writes. Each of its
-- transactions stands at a moment; what others commit before it, and its time, are parameters, and so
-- are the extractors, the model and the tests of the token. A cancelled task and the time limit stop
-- the extraction or the run of the agent from outside; a cancellation in between, where the code has
-- no handler, and errors of the database are left out.
pub mod Ends
pub mod Imports
mod Tests
use lingyunzhi_os_backend.Base.{
  ℕ, String, Bool, true, false, List, [], ◌∷◌, ◌++◌, Option, none, some, Result, ok, err, ◌>>=◌,
  ◌<>◌, truthy, for_each, length, if◌then◌else◌,
}
use lingyunzhi_os_backend.Dict.{Dict, lookup}
use lingyunzhi_os_backend.ProtoModels.{OntologyRegistry, empty_registry}
use lingyunzhi_os_backend.Registry.Crud.Errors.{validation_failed, referenced, key_error}
use lingyunzhi_os_backend.Registry.Imports.{
  ImportMode, replace_mode, merge_mode, import_into_registry,
}
use lingyunzhi_os_backend.Registry.Store.{
  staging, Registries, RegistrySnapshot, StaleVersion, load, save,
}
use lingyunzhi_os_backend.Registry.Lifecycle.{
  LifecycleError, crud_error, stale_version, undo_unavailable, Lifecycle, from_crud,
}
use lingyunzhi_os_backend.Ingestion.Agent.{
  Message, Reply, AgentDecision, End, finished, step_cap_exceeded, llm_failed, Run, run_agent,
}
use lingyunzhi_os_backend.Ingestion.Jobs.{
  JobStatus, extracting, agent_running, validating, imported, failed, cancelled, Upload, Job,
  StatusUpdate, failed_file, failed_for, capped_at, stale, with_findings, status_of, set_status,
  list_uploads_for_job,
}
pub use lingyunzhi_os_backend.Ingestion.World.{
  Section, ExtractedDocument, Interrupt, wall_clock_timeout, task_cancelled, Moment, at_start,
  at_failed_extraction, at_agent_start, at_agent_end, at_import, at_end, Extracted, document,
  unreadable, stopped, broken, Extraction, documents, file_failed, extraction_stopped,
  extraction_broken, RunEnd, decided, timed_out, capped, run_cancelled, driver_error, Tables, Ended,
  World,
}
unfoldable pub use lingyunzhi_os_backend.Ingestion.World.{
  join_paragraphs, user_prompt, working_registry, joined, extract_all, run_end,
}

abbrev pub counts : OntologyRegistry → List ℕ
counts reg =
    length reg.shared_property_types
    ∷ length reg.interface_types
    ∷ length reg.object_types
    ∷ length reg.link_types
    ∷ length reg.action_types
    ∷ []

unfoldable pub stored_as :
    OntologyRegistry
    → Result StaleVersion (Registries × ℕ)
    → Lifecycle (OntologyRegistry × Registries × ℕ)
stored_as reg (ok (registries, version)) = ok (reg, registries, version)
stored_as reg (err e) = err (stale_version e)

-- The validated import and the new table and version, in one transaction.
unfoldable pub store_import :
    ℕ
    → Registries
    → RegistrySnapshot
    → OntologyRegistry
    → ImportMode
    → List String
    → Lifecycle (OntologyRegistry × Registries × ℕ)
store_import now t snap wr mode ids =
    from_crud (import_into_registry snap.registry wr mode ids) >>= λ reg.
    stored_as reg (save now t staging reg (some snap.version) (some "ingestion") none)

module _ {ℓ} {Raised : Type ℓ} where
  -- What a run that failed or was cancelled writes into its row.
  abbrev pub failure : String → String → StatusUpdate Raised
  failure phase code = record (status_of failed phase) {
    error_code = some code;
    mark_finished = true;
  }

  abbrev pub cancellation : StatusUpdate Raised
  cancellation = record (status_of cancelled "cancelled") { mark_finished = true }

  module _ (w : World Raised) (job_id : String) where
    -- A transaction that sets the status.
    unfoldable pub report : Moment → StatusUpdate Raised → Tables Raised → Tables Raised
    report m u t =
        let t' = w.others m t in record t' { jobs = set_status (w.time m) job_id u t'.jobs }

    abbrev pub reported : Moment → StatusUpdate Raised → Tables Raised → Ended Raised
    reported m u t = record { tables = report m u t; returned = true }

    unfoldable pub after_import :
        List (AgentDecision Raised)
        → Tables Raised
        → Lifecycle (OntologyRegistry × Registries × ℕ)
        → Ended Raised
    after_import decisions t (ok (reg, registries, version)) =
        reported at_end
          (record (status_of imported "imported") {
            progress = some 100;
            decisions_report =
                some (record { decisions = decisions; imported_entity_counts = counts reg });
            staging_version_after = some version;
            mark_finished = true;
          })
          (record t { registries = registries })
    after_import decisions t (err (stale_version e)) =
        reported at_end
          (record (failure "stale staging" "STALE_VERSION") {
            error_details = some (stale e.expected_version e.current_version);
          })
          t
    after_import decisions t (err (crud_error (validation_failed fs))) =
        reported at_end
          (record (failure "validation failed" "VALIDATION_FAILED") {
            error_details = some (with_findings fs);
          })
          t
    after_import decisions t (err (crud_error (referenced rid rs))) = record {
      tables = t;
      returned = false;
    }
    after_import decisions t (err (crud_error (key_error k))) = record {
      tables = t;
      returned = false;
    }
    after_import decisions t (err undo_unavailable) = record { tables = t; returned = false }

    -- The transaction of the import.
    unfoldable pub import_result :
        RegistrySnapshot
        → OntologyRegistry
        → ImportMode
        → List (AgentDecision Raised)
        → Tables Raised
        → Ended Raised
    import_result snap wr mode decisions t =
        let t' = w.others at_import t in
        after_import decisions t'
          (store_import (w.time at_import) t'.registries snap wr mode w.connection_ids)

    unfoldable pub after_run :
        RegistrySnapshot
        → OntologyRegistry
        → ImportMode
        → Tables Raised
        → RunEnd Raised
        → Ended Raised
    after_run snap wr mode t (decided decisions) =
        import_result snap wr mode decisions (
          report at_agent_end (record (status_of validating "validating") { progress = some 80 }) t)
    after_run snap wr mode t timed_out =
        reported at_agent_end (failure "wall-clock timeout" "WALL_CLOCK_TIMEOUT") t
    after_run snap wr mode t capped =
        reported at_agent_end
          (record (failure "step cap exceeded" "STEP_CAP_EXCEEDED") {
            error_details = some (capped_at w.max_steps);
          })
          t
    after_run snap wr mode t run_cancelled = reported at_agent_end cancellation t
    after_run snap wr mode t (driver_error e) =
        reported at_agent_end
          (record (failure "LLM provider error" "LLM_PROVIDER_ERROR") {
            error_details = some (failed_for e);
          })
          t

    unfoldable pub agent_run : RegistrySnapshot → List ExtractedDocument → Job Raised → Run Raised
    agent_run snap docs job =
        run_agent w.llm w.is_cancelled w.connection_ids (working_registry job.mode snap.registry)
          w.system_prompt (user_prompt docs job.instructions) w.max_steps

    -- After `get_job`, which raises when there is no row.
    unfoldable pub with_job :
        List ExtractedDocument → Tables Raised → Option (Job Raised) → Ended Raised
    with_job docs t none = record { tables = t; returned = false }
    with_job docs t (some job) =
        let snap = load t.registries staging in
        let run = agent_run snap docs job in
        after_run snap run.left_in job.mode t (run_end w.interrupted run.end)

    unfoldable pub after_extraction : Tables Raised → Extraction Raised → Ended Raised
    after_extraction t (documents docs) =
        let t' =
          report at_agent_start
            (record (status_of agent_running "agent running") { progress = some 40 }) t in
        with_job docs t' (lookup job_id t'.jobs)
    after_extraction t (file_failed filename e) =
        reported at_failed_extraction
          (record (failure "extraction failed" "EXTRACTION_FAILED") {
            error_details = some (failed_file filename e);
          })
          t
    after_extraction t extraction_stopped = reported at_failed_extraction cancellation t
    after_extraction t (extraction_broken e) =
        reported at_failed_extraction
          (record (failure "extraction error" "EXTRACTION_FAILED") {
            error_details = some (failed_for e);
          })
          t

    unfoldable pub run_one_job : Tables Raised → Ended Raised
    run_one_job t =
        let t' =
          report at_start
            (record (status_of extracting "extracting files") {
              progress = some 10;
              mark_started = true;
            })
            t in
        after_extraction t' (extract_all w.extract (list_uploads_for_job job_id t'.uploads))
