-- ===== src/Ingestion/Jobs/Rows.antt =====
-- What the updates of onto_platform/ingestion/store.py leave in the row of a job.
use lingyunzhi_os_backend.Base.{ℕ, String, ◌≡◌, refl, Option, none, some, eq_refl}
use lingyunzhi_os_backend.Dict.{Dict, lookup, lookup-insert}
use lingyunzhi_os_backend.Ingestion.Jobs.{
  Job, StatusUpdate, with_status, update_found, update_job, set_status,
}

-- What an update makes of a row, when it is there.
abbrev pub if_found {ℓ} : {A : Type ℓ} → (A → A) → Option A → Option A
if_found f none = none
if_found f (some a) = some (f a)

module _ {ℓ} {Raised : Type ℓ} where
  update_found_lem :
      (job_id : String) (f : Job Raised → Job Raised) (found : Option (Job Raised))
      (jobs : Dict (Job Raised))
      → lookup job_id jobs ≡ found
      → lookup job_id (update_found job_id f found jobs) ≡ if_found f found
  unfolding update_found
  update_found_lem job_id f none jobs e = e
  update_found_lem job_id f (some job) jobs e = rw lookup-insert (rw eq_refl refl)

  pub lookup-update_job :
      (job_id : String) (f : Job Raised → Job Raised) (jobs : Dict (Job Raised))
      → lookup job_id (update_job job_id f jobs) ≡ if_found f (lookup job_id jobs)
  unfolding update_job
  lookup-update_job job_id f jobs = update_found_lem job_id f (lookup job_id jobs) jobs refl

  pub lookup-set_status :
      (now : ℕ) (job_id : String) (u : StatusUpdate Raised) (jobs : Dict (Job Raised))
      → lookup job_id (set_status now job_id u jobs)
        ≡ if_found (with_status now u) (lookup job_id jobs)
  unfolding set_status
  lookup-set_status now job_id u jobs = lookup-update_job job_id (with_status now u) jobs
