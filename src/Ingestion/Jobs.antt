-- ===== src/Ingestion/Jobs.antt =====
-- `IngestionStore` of onto_platform/ingestion/store.py over the tables of the migration 0003, and the
-- cancelling of a job in onto_platform/mcp_tools_ingestion.py. JSON columns hold the values that are
-- written into them; the identifiers of new rows are the database's.
pub mod Rows
pub mod Cancelling
pub mod Linking
use lingyunzhi_os_backend.Base.{
  ℕ, String, Bool, true, false, not, ◌&&◌, ◌||◌, List, [], ◌∷◌, ◌++◌, Option, none, some, ◌==◌,
  contains, if◌then◌else◌,
}
use lingyunzhi_os_backend.Dict.{Dict, lookup, insert}
use lingyunzhi_os_backend.Registry.Findings.{Finding}
use lingyunzhi_os_backend.Registry.Imports.{ImportMode}
use lingyunzhi_os_backend.Ingestion.Agent.{AgentDecision}

pub data JobStatus : Type 0 where
  queued extracting agent_running validating imported failed cancelled : JobStatus

-- A row of `ingestion_uploads`
pub record Upload : Type 0 where
  pub id : String
  pub job_id : Option String
  pub filename : String
  pub kind : String
  pub size_bytes : ℕ
  pub sha256 : String
  pub path : String

-- What the worker writes into `error_details`.
pub data ErrorDetails {ℓ} (Raised : Type ℓ) : Type ℓ where
  failed_file : String → Raised → ErrorDetails Raised
  failed_for : Raised → ErrorDetails Raised
  capped_at : ℕ → ErrorDetails Raised
  stale : ℕ → ℕ → ErrorDetails Raised
  with_findings : List Finding → ErrorDetails Raised

-- `decisions_report`: the decisions of the agent and the counts of the five maps.
pub record DecisionsReport {ℓ} (Raised : Type ℓ) : Type ℓ where
  pub decisions : List (AgentDecision Raised)
  pub imported_entity_counts : List ℕ

-- A row of `ingestion_jobs`
pub record Job {ℓ} (Raised : Type ℓ) : Type ℓ where
  pub mode : ImportMode
  pub instructions : Option String
  pub status : JobStatus
  pub phase_message : String
  pub progress_pct : ℕ
  pub decisions_report : Option (DecisionsReport Raised)
  pub staging_version_after : Option ℕ
  pub error_code : Option String
  pub error_details : Option (ErrorDetails Raised)
  pub created_at : ℕ
  pub started_at : Option ℕ
  pub finished_at : Option ℕ

-- The keyword arguments of `set_status`.
pub record StatusUpdate {ℓ} (Raised : Type ℓ) : Type ℓ where
  pub status : JobStatus
  pub phase : String
  pub progress : Option ℕ
  pub error_code : Option String
  pub error_details : Option (ErrorDetails Raised)
  pub decisions_report : Option (DecisionsReport Raised)
  pub staging_version_after : Option ℕ
  pub mark_started : Bool
  pub mark_finished : Bool

-- `COALESCE(new, old)`
abbrev pub coalesce {ℓ} : {A : Type ℓ} → Option A → Option A → Option A
coalesce none old = old
coalesce (some a) old = some a

abbrev pub or_kept {ℓ} : {A : Type ℓ} → Option A → A → A
or_kept none old = old
or_kept (some a) old = a

-- `status NOT IN ('imported', 'failed', 'cancelled')`
abbrev pub is_terminal : JobStatus → Bool
is_terminal queued = false
is_terminal extracting = false
is_terminal agent_running = false
is_terminal validating = false
is_terminal imported = true
is_terminal failed = true
is_terminal cancelled = true

module _ {ℓ} {Raised : Type ℓ} where
  -- The arguments that a call leaves out.
  abbrev pub status_of : JobStatus → String → StatusUpdate Raised
  status_of status phase = record {
    status = status;
    phase = phase;
    progress = none;
    error_code = none;
    error_details = none;
    decisions_report = none;
    staging_version_after = none;
    mark_started = false;
    mark_finished = false;
  }

  -- The row that the UPDATE of `set_status` leaves.
  unfoldable pub with_status : ℕ → StatusUpdate Raised → Job Raised → Job Raised
  with_status now u job = record job {
    status = u.status;
    phase_message = u.phase;
    progress_pct = or_kept u.progress job.progress_pct;
    error_code = coalesce u.error_code job.error_code;
    error_details = coalesce u.error_details job.error_details;
    decisions_report = coalesce u.decisions_report job.decisions_report;
    staging_version_after = coalesce u.staging_version_after job.staging_version_after;
    started_at = if u.mark_started then coalesce job.started_at (some now) else job.started_at;
    finished_at = if u.mark_finished then some now else job.finished_at;
  }

  -- An UPDATE of the row with an identifier.
  unfoldable pub update_found :
      String
      → (Job Raised → Job Raised)
      → Option (Job Raised)
      → Dict (Job Raised)
      → Dict (Job Raised)
  update_found job_id f none jobs = jobs
  update_found job_id f (some job) jobs = insert job_id (f job) jobs

  unfoldable pub update_job :
      String → (Job Raised → Job Raised) → Dict (Job Raised) → Dict (Job Raised)
  update_job job_id f jobs = update_found job_id f (lookup job_id jobs) jobs

  unfoldable pub set_status :
      ℕ → String → StatusUpdate Raised → Dict (Job Raised) → Dict (Job Raised)
  set_status now job_id u jobs = update_job job_id (with_status now u) jobs

  -- `cancel_ingestion_job`, on the row
  unfoldable pub with_cancelled : ℕ → Job Raised → Job Raised
  with_cancelled now job =
      if is_terminal job.status
      then job
      else record job { status = cancelled; finished_at = some now }

  unfoldable pub cancel_ingestion_job : ℕ → String → Dict (Job Raised) → Dict (Job Raised)
  cancel_ingestion_job now job_id jobs = update_job job_id (with_cancelled now) jobs

  -- The row that `create_job` inserts.
  abbrev pub new_job : ℕ → ImportMode → Option String → Job Raised
  new_job now mode instructions = record {
    mode = mode;
    instructions = instructions;
    status = queued;
    phase_message = "";
    progress_pct = 0;
    decisions_report = none;
    staging_version_after = none;
    error_code = none;
    error_details = none;
    created_at = now;
    started_at = none;
    finished_at = none;
  }

-- `UPDATE ingestion_uploads SET job_id = :j WHERE id = :u AND job_id IS NULL` for each identifier.
abbrev pub is_unlinked : Option String → Bool
is_unlinked none = true
is_unlinked (some j) = false

unfoldable pub link_upload : String → String → List Upload → List Upload
link_upload job_id u [] = []
link_upload job_id u (up ∷ ups) =
    (if up.id == u && is_unlinked up.job_id then record up { job_id = some job_id } else up)
    ∷ link_upload job_id u ups

unfoldable pub link_uploads : String → List String → List Upload → List Upload
link_uploads job_id [] ups = ups
link_uploads job_id (u ∷ us) ups = link_uploads job_id us (link_upload job_id u ups)

-- `WHERE job_id = :j`
abbrev pub is_linked_to : String → Option String → Bool
is_linked_to job_id none = false
is_linked_to job_id (some j) = j == job_id

unfoldable pub list_uploads_for_job : String → List Upload → List Upload
list_uploads_for_job job_id [] = []
list_uploads_for_job job_id (up ∷ ups) =
    let rest = list_uploads_for_job job_id ups in
    if is_linked_to job_id up.job_id then up ∷ rest else rest

-- `create_job`: the row under the identifier the database gives, and the uploads that join it.
unfoldable pub create_job {ℓ} :
    {Raised : Type ℓ}
    → ℕ
    → String
    → ImportMode
    → Option String
    → List String
    → Dict (Job Raised)
    → List Upload
    → Dict (Job Raised) × List Upload
create_job now job_id mode instructions upload_ids jobs ups =
    (insert job_id (new_job now mode instructions) jobs, link_uploads job_id upload_ids ups)
