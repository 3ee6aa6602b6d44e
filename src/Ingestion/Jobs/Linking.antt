-- ===== src/Ingestion/Jobs/Linking.antt =====
-- The uploads that `create_job` of onto_platform/ingestion/store.py gives to a job.
use lingyunzhi_os_backend.Base.{
  ℕ, String, ◌≡◌, refl, sym, ◌∙◌, false, ◌&&◌, List, [], ◌∷◌, Option, some, ◌==◌, eq_refl, contains,
  if◌then◌else◌, arith, Bool-cases, inl, inr,
}
use lingyunzhi_os_backend.Dict.{Dict, lookup, lookup-insert}
use lingyunzhi_os_backend.Registry.Imports.{ImportMode}
use lingyunzhi_os_backend.Ingestion.Jobs.{
  Job, create_job, new_job, Upload, is_unlinked, link_upload, link_uploads, list_uploads_for_job,
}

-- The row of an upload after the job has taken the uploads it names.
abbrev linked : String → List String → Upload → Upload
linked job_id us up =
    if contains up.id us && is_unlinked up.job_id then record up { job_id = some job_id } else up

linked_all : String → List String → List Upload → List Upload
linked_all job_id us [] = []
linked_all job_id us (up ∷ ups) = linked job_id us up ∷ linked_all job_id us ups

-- Of the uploads, in their order, those that are named and had no job.
abbrev pub taken : String → List String → List Upload → List Upload
taken job_id us [] = []
taken job_id us (up ∷ ups) =
    let rest = taken job_id us ups in
    if contains up.id us && is_unlinked up.job_id
    then record up { job_id = some job_id } ∷ rest
    else rest

linked_nil : (job_id : String) (up : Upload) → linked job_id [] up ≡ up
unfolding contains
linked_nil job_id up = refl

linked_all-nil : (job_id : String) (ups : List Upload) → linked_all job_id [] ups ≡ ups
unfolding linked_all
linked_all-nil job_id [] = refl
linked_all-nil job_id (up ∷ ups) = rw (linked_nil job_id up, linked_all-nil job_id ups) refl

-- One more name.
linked_once :
    (job_id u : String) (us : List String) (up : Upload)
    → linked job_id us
        (if up.id == u && is_unlinked up.job_id then record up { job_id = some job_id } else up)
      ≡ linked job_id (u ∷ us) up
unfolding contains
linked_once job_id u us up = elim (Bool-cases (is_unlinked up.job_id)) [
  | inl h ↦ elim (Bool-cases (up.id == u)) [ inl e ↦ ground arith | inr e ↦ ground arith ]
  | inr h ↦ ground arith
]

linked_all-link_upload :
    (job_id u : String) (us : List String) (ups : List Upload)
    → linked_all job_id us (link_upload job_id u ups) ≡ linked_all job_id (u ∷ us) ups
unfolding linked_all link_upload
linked_all-link_upload job_id u us [] = refl
linked_all-link_upload job_id u us (up ∷ ups) =
    rw (linked_once job_id u us up, linked_all-link_upload job_id u us ups) refl

link_uploads_lem :
    (job_id : String) (us : List String) (ups : List Upload)
    → link_uploads job_id us ups ≡ linked_all job_id us ups
unfolding link_uploads
link_uploads_lem job_id [] ups = sym (linked_all-nil job_id ups)
link_uploads_lem job_id (u ∷ us) ups =
    link_uploads_lem job_id us (link_upload job_id u ups) ∙ linked_all-link_upload job_id u us ups

list_uploads-linked_all :
    (job_id : String) (us : List String) (ups : List Upload)
    → list_uploads_for_job job_id ups ≡ []
    → list_uploads_for_job job_id (linked_all job_id us ups) ≡ taken job_id us ups
unfolding list_uploads_for_job linked_all
list_uploads-linked_all job_id us [] fresh = refl
list_uploads-linked_all job_id us (up ∷ ups) fresh =
    elim (Bool-cases (contains up.id us && is_unlinked up.job_id)) [
      | inl h ↦ ground (arith, list_uploads-linked_all job_id us ups, eq_refl job_id)
      | inr h ↦ ground (arith, list_uploads-linked_all job_id us ups)
    ]

-- A job that is created under an identifier which no upload carries is queued with the mode and the
-- instructions that were given, the rows of the other jobs stay, and its uploads are exactly those
-- that were named and belonged to no job, in their order, however often each is named.
pub create_job-list_uploads {ℓ} :
    {Raised : Type ℓ} (now : ℕ) (job_id other : String) (mode : ImportMode)
    (instructions : Option String) (us : List String) (jobs : Dict (Job Raised)) (ups : List Upload)
    → list_uploads_for_job job_id ups ≡ []
    → (job_id == other) ≡ false
    → (lookup job_id (create_job now job_id mode instructions us jobs ups).0
        ≡ some (new_job now mode instructions))
      × (lookup other (create_job now job_id mode instructions us jobs ups).0 ≡ lookup other jobs)
      × (list_uploads_for_job job_id (create_job now job_id mode instructions us jobs ups).1
          ≡ taken job_id us ups)
unfolding create_job
create_job-list_uploads now job_id other mode instructions us jobs ups fresh apart = (
  rw lookup-insert (rw eq_refl refl),
  rw lookup-insert (rw apart refl),
  rw (link_uploads_lem job_id us ups) (list_uploads-linked_all job_id us ups fresh),
)
