-- ===== src/Ingestion/World.antt =====
-- What a run of onto_platform/ingestion/workers.py meets: the tables, the extractors and what they
-- make of the uploads, the prompt of the agent, and the ways in which its run ends.
use lingyunzhi_os_backend.Base.{
  ℕ, String, Bool, List, [], ◌∷◌, ◌++◌, Option, none, some, Result, ◌<>◌, truthy, for_each,
  if◌then◌else◌,
}
use lingyunzhi_os_backend.Dict.{Dict}
use lingyunzhi_os_backend.ProtoModels.{OntologyRegistry, empty_registry}
use lingyunzhi_os_backend.Registry.Imports.{ImportMode, replace_mode, merge_mode}
use lingyunzhi_os_backend.Registry.Store.{Registries}
use lingyunzhi_os_backend.Ingestion.Agent.{
  Message, Reply, AgentDecision, End, finished, step_cap_exceeded, llm_failed,
}
use lingyunzhi_os_backend.Ingestion.Jobs.{Upload, Job}

-- `Section` and `ExtractedDocument` of extractors/types.py
pub record Section : Type 0 where
  pub heading : String
  pub text : String

pub record ExtractedDocument : Type 0 where
  pub kind : String
  pub source_filename : String
  pub sections : List Section

pub data Interrupt : Type 0 where
  wall_clock_timeout task_cancelled : Interrupt

-- Where the transactions of a run stand.
pub data Moment : Type 0 where
  at_start at_failed_extraction at_agent_start at_agent_end at_import at_end : Moment

module _ {ℓ} (Raised : Type ℓ) where
  -- What an extractor does with a file: a document, `ExtractionFailure`, `CancelledError`, or another
  -- exception.
  pub data Extracted : Type ℓ where
    document : ExtractedDocument → Extracted
    unreadable : Raised → Extracted
    stopped : Extracted
    broken : Raised → Extracted

  pub data Extraction : Type ℓ where
    documents : List ExtractedDocument → Extraction
    file_failed : String → Raised → Extraction
    extraction_stopped : Extraction
    extraction_broken : Raised → Extraction

  -- How the awaited run of the agent ends.
  pub data RunEnd : Type ℓ where
    decided : List (AgentDecision Raised) → RunEnd
    timed_out : RunEnd
    capped : RunEnd
    run_cancelled : RunEnd
    driver_error : Raised → RunEnd

  pub record Tables : Type ℓ where
    pub registries : Registries
    pub jobs : Dict (Job Raised)
    pub uploads : List Upload

  -- The tables when the task is over, and whether it returned or an exception ended it.
  pub record Ended : Type ℓ where
    pub tables : Tables
    pub returned : Bool

  pub record World : Type ℓ where
    pub extract : Upload → Extracted
    pub llm : ℕ → List (Message Raised) → Result Raised (Reply Raised)
    pub is_cancelled : ℕ → ℕ → Bool
    pub interrupted : Option Interrupt
    pub connection_ids : List String
    pub max_steps : ℕ
    pub system_prompt : String
    pub others : Moment → Tables → Tables
    pub time : Moment → ℕ

-- `"\n\n".join(parts)`
unfoldable pub join_paragraphs : List String → String
join_paragraphs [] = ""
join_paragraphs (p ∷ []) = p
join_paragraphs (p ∷ q ∷ ps) = p <> "\n\n" <> join_paragraphs (q ∷ ps)

-- `if job_instructions`
abbrev instructions_part : Option String → List String
instructions_part none = []
instructions_part (some s) = if truthy s then ("Operator instructions: " <> s) ∷ [] else []

-- `_user_prompt`
unfoldable pub user_prompt : List ExtractedDocument → Option String → String
user_prompt docs instructions = join_paragraphs (
    instructions_part instructions
    ++ for_each docs (λ doc.
      ("# " <> doc.source_filename <> " (" <> doc.kind <> ")")
      ∷ for_each doc.sections (λ sec. ("## " <> sec.heading) ∷ sec.text ∷ [])))

unfoldable pub working_registry : ImportMode → OntologyRegistry → OntologyRegistry
working_registry replace_mode registry = empty_registry
working_registry merge_mode registry = registry

module _ {ℓ} {Raised : Type ℓ} where
  unfoldable pub joined : String → Extracted Raised → Extraction Raised → Extraction Raised
  joined filename (document d) (documents ds) = documents (d ∷ ds)
  joined filename (document d) rest = rest
  joined filename (unreadable e) rest = file_failed filename e
  joined filename stopped rest = extraction_stopped
  joined filename (broken e) rest = extraction_broken e

  -- `for up in uploads`
  unfoldable pub extract_all : (Upload → Extracted Raised) → List Upload → Extraction Raised
  extract_all extract [] = documents []
  extract_all extract (up ∷ ups) = joined up.filename (extract up) (extract_all extract ups)

  unfoldable pub run_end : Option Interrupt → End Raised → RunEnd Raised
  run_end (some wall_clock_timeout) e = timed_out
  run_end (some task_cancelled) e = run_cancelled
  run_end none (finished message steps decisions) = decided decisions
  run_end none End.cancelled = run_cancelled
  run_end none step_cap_exceeded = capped
  run_end none (llm_failed e) = driver_error e
