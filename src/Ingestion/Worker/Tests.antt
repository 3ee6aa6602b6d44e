-- ===== src/Ingestion/Worker/Tests.antt =====
-- A run over one upload with a model that is done at once, and the theorems on jobs at it.
use lingyunzhi_os_backend.Base.{
  String, ◌≡◌, refl, false, [], ◌∷◌, Option, none, some, ok, truthy, for_each,
}
use lingyunzhi_os_backend.Dict.{lookup}
use lingyunzhi_os_backend.Registry.Imports.{merge_mode}
use lingyunzhi_os_backend.Registry.Samples.{with_pump, stage}
use lingyunzhi_os_backend.Registry.Store.{initial}
use lingyunzhi_os_backend.Ingestion.Jobs.{Upload, new_job, list_uploads_for_job}
use lingyunzhi_os_backend.Ingestion.Worker.{
  ExtractedDocument, document, Tables, World, user_prompt, join_paragraphs, run_one_job,
  extract_all, joined,
}
use lingyunzhi_os_backend.Ingestion.Worker.Ends.{IsDone, run_one_job-IsDone}
use lingyunzhi_os_backend.Ingestion.Worker.Imports.{EndsStored, run_one_job-Stored}

-- Unfolding this unfolds the tables before the run and the prompt of the agent.
unfoldable running : Unit {0}
unfolding truthy for_each user_prompt join_paragraphs extract_all joined list_uploads_for_job lookup
running = tt

abbrev manual : ExtractedDocument
manual = record {
  kind = "txt";
  source_filename = "manual.txt";
  sections = record { heading = "Pumps"; text = "A pump has a serial number." } ∷ [];
}

abbrev file : String → Option String → Upload
file id job_id = record {
  id = id;
  job_id = job_id;
  filename = "manual.txt";
  kind = "txt";
  size_bytes = 27;
  sha256 = "";
  path = "uploads/manual.txt";
}

abbrev before : Tables String
before = record {
  registries = stage with_pump initial;
  jobs = ("j", new_job 1 merge_mode none) ∷ [];
  uploads = file "1" (some "j") ∷ [];
}

abbrev alone : World String
alone = record {
  extract = λ up. document manual;
  llm = λ step messages. ok (record { content = some "done"; tool_calls = [] });
  is_cancelled = λ step i. false;
  interrupted = none;
  connection_ids = [];
  max_steps = 3;
  system_prompt = "system";
  others = λ m t. t;
  time = λ m. 2;
}

prompted :
    user_prompt (manual ∷ []) (some "Be brief.")
    ≡ "Operator instructions: Be brief.\n\n# manual.txt (txt)\n\n## Pumps\n\nA pump has a serial number."
unfolding running
prompted = refl

found : lookup "j" before.jobs ≡ some (new_job 1 merge_mode none)
unfolding running
found = refl

run_one_job-IsDone_example : IsDone alone "j" (run_one_job alone "j" before)
run_one_job-IsDone_example =
    run_one_job-IsDone alone "j" (λ m t p. p) before (new_job 1 merge_mode none, found)

run_one_job-Stored_example : EndsStored alone "j" before.registries (run_one_job alone "j" before)
run_one_job-Stored_example =
    run_one_job-Stored alone "j" (λ m t p. p) (λ m t. refl) before
      (new_job 1 merge_mode none, found)
