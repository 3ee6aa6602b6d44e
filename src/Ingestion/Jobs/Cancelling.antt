-- ===== src/Ingestion/Jobs/Cancelling.antt =====
-- `cancel_ingestion_job` of onto_platform/mcp_tools_ingestion.py against the worker's `set_status`.
use lingyunzhi_os_backend.Base.{
  ℕ, String, ◌≡◌, refl, sym, ◌∙◌, ap, true, Bool-cases, Option, none, some, inl, inr,
}
use lingyunzhi_os_backend.Dict.{Dict, lookup}
use lingyunzhi_os_backend.Ingestion.Jobs.{
  Job, StatusUpdate, is_terminal, with_status, with_cancelled, set_status, cancel_ingestion_job,
}
use lingyunzhi_os_backend.Ingestion.Jobs.Rows.{if_found, lookup-update_job, lookup-set_status}

module _ {ℓ} {Raised : Type ℓ} where
  with_status-with_cancelled :
      (now at : ℕ) (u : StatusUpdate Raised) (job : Job Raised)
      → u.mark_finished ≡ true
      → with_status now u (with_cancelled at job) ≡ with_status now u job
  unfolding with_status with_cancelled
  with_status-with_cancelled now at u job marked = elim (Bool-cases (is_terminal job.status)) [
    | inl h ↦ rw h refl
    | inr h ↦ rw h (rw marked refl)
  ]

  if_found-twice :
      (now at : ℕ) (u : StatusUpdate Raised) (found : Option (Job Raised))
      → u.mark_finished ≡ true
      → if_found (with_status now u) (if_found (with_cancelled at) found)
        ≡ if_found (with_status now u) found
  if_found-twice now at u none marked = refl
  if_found-twice now at u (some job) marked =
      ap some (with_status-with_cancelled now at u job marked)

  -- A job that is cancelled through the tool while the worker is busy with it: the worker's last
  -- status, which marks the job finished, leaves the same row as if nobody had cancelled it.
  pub set_status-cancel_ingestion_job :
      (now at : ℕ) (job_id : String) (u : StatusUpdate Raised) (jobs : Dict (Job Raised))
      → u.mark_finished ≡ true
      → lookup job_id (set_status now job_id u (cancel_ingestion_job at job_id jobs))
        ≡ lookup job_id (set_status now job_id u jobs)
  unfolding cancel_ingestion_job
  set_status-cancel_ingestion_job now at job_id u jobs marked =
      lookup-set_status now job_id u (cancel_ingestion_job at job_id jobs)
      ∙ ap (if_found (with_status now u)) (lookup-update_job job_id (with_cancelled at) jobs)
      ∙ if_found-twice now at u (lookup job_id jobs) marked
      ∙ sym (lookup-set_status now job_id u jobs)
