-- ===== src/Ingestion/Agent.antt =====
-- `run_agent` of onto_platform/ingestion/agent.py. The model behind `llm.acompletion` is not part of
-- the repository: what it replies at a step, which may also be an exception, is a parameter, and so
-- is what the cancellation token says at each test. Of a decision the summary of the arguments is
-- left out, and `_summarize_args`, which also runs in the handlers of exceptions, is taken not to
-- raise.
pub mod Bounds
pub mod Edits
mod Tests
use lingyunzhi_os_backend.Base.{
  ℕ, zero, suc, ◌+◌, String, Bool, true, false, List, [], ◌∷◌, ◌++◌, Option, none, some, Result, ok,
  err, if◌then◌else◌,
}
use lingyunzhi_os_backend.ProtoModels.{OntologyRegistry}
use lingyunzhi_os_backend.Ingestion.Tools.{
  Arguments, Answer, AgentError, unknown_tool, invalid, refused, Called, dispatch_agent_call,
}

pub data Outcome : Type 0 where
  succeeded failed_unknown_tool failed : Outcome

module _ {ℓ} (Raised : Type ℓ) where
  pub record ToolCall : Type ℓ where
    pub id : String
    pub name : String
    pub arguments : Arguments Raised
    pub reason : Option String

  pub record Reply : Type ℓ where
    pub content : Option String
    pub tool_calls : List ToolCall

  -- `messages`; the content of a tool's message is what the tool returned or raised.
  pub data Message : Type ℓ where
    system : String → Message
    user : String → Message
    assistant : Reply → Message
    tool_result : String → Answer → Message
    tool_error : String → AgentError Raised → Message

  -- `AgentDecision`
  pub record AgentDecision : Type ℓ where
    pub tool : String
    pub outcome : Outcome
    pub reason : String
    pub error : Option (AgentError Raised)

  -- How a run ends: `AgentRunResult`, `CancelledError`, `StepCapExceeded`, or what the model raised.
  pub data End : Type ℓ where
    finished : String → ℕ → List AgentDecision → End
    cancelled : End
    step_cap_exceeded : End
    llm_failed : Raised → End

  -- The registry in the working registry and the two lists of the run.
  pub record AgentState : Type ℓ where
    pub working : OntologyRegistry
    pub messages : List Message
    pub decisions : List AgentDecision

  -- The working registry when a run is over, and its end.
  pub record Run : Type ℓ where
    pub left_in : OntologyRegistry
    pub end : End

-- `x or ""`
unfoldable pub or_empty : Option String → String
or_empty none = ""
or_empty (some s) = s

module _ {ℓ} {Raised : Type ℓ} where
  -- `except AgentToolError` and `except Exception`
  unfoldable pub outcome_of : AgentError Raised → Outcome
  outcome_of (unknown_tool name) = failed_unknown_tool
  outcome_of (invalid e) = failed
  outcome_of (refused e) = failed

  -- What the body of the loop over the calls does with what `dispatch_agent_call` returned or raised.
  unfoldable pub recorded :
      ToolCall Raised → AgentState Raised → Result (AgentError Raised) Called → AgentState Raised
  recorded call st (ok c) = record {
    working = c.working;
    decisions =
        st.decisions
        ++ (record {
          tool = call.name;
          outcome = succeeded;
          reason = or_empty call.reason;
          error = none;
        }
            ∷ []);
    messages = st.messages ++ (tool_result call.id c.answer ∷ []);
  }
  recorded call st (err e) = record {
    working = st.working;
    decisions =
        st.decisions
        ++ (record {
          tool = call.name;
          outcome = outcome_of e;
          reason = or_empty call.reason;
          error = some e;
        }
            ∷ []);
    messages = st.messages ++ (tool_error call.id e ∷ []);
  }

  -- The part of a run that calls `more` for the steps that are left.
  unfoldable pub after_calls :
      (AgentState Raised → Run Raised) → AgentState Raised × Bool → Run Raised
  after_calls more (st, true) = record { left_in = st.working; end = cancelled }
  after_calls more (st, false) = more st

  module _ (llm : ℕ → List (Message Raised) → Result Raised (Reply Raised))
      (is_cancelled : ℕ → ℕ → Bool) (connection_ids : List String) where
    unfoldable pub called : ToolCall Raised → AgentState Raised → AgentState Raised
    called call st =
        recorded call st (dispatch_agent_call st.working call.name call.arguments connection_ids)

    -- `for call in resp.tool_calls`, and whether it was cancelled; the index counts the tests of the
    -- token in this step.
    unfoldable pub run_calls :
        ℕ → ℕ → List (ToolCall Raised) → AgentState Raised → AgentState Raised × Bool
    run_calls step i [] st = (st, false)
    run_calls step i (call ∷ calls) st =
        let rest = run_calls step (suc i) calls (called call st) in
        if is_cancelled step i then (st, true) else rest

    unfoldable pub answered :
        (AgentState Raised → Run Raised)
        → ℕ
        → Option String
        → List (ToolCall Raised)
        → AgentState Raised
        → Run Raised
    answered more step content [] st = record {
      left_in = st.working;
      end = finished (or_empty content) step st.decisions;
    }
    answered more step content (call ∷ calls) st =
        after_calls more (run_calls step 1 (call ∷ calls) st)

    unfoldable pub replied :
        (AgentState Raised → Run Raised)
        → ℕ
        → AgentState Raised
        → Result Raised (Reply Raised)
        → Run Raised
    replied more step st (err e) = record { left_in = st.working; end = llm_failed e }
    replied more step st (ok reply) =
        answered more step reply.content reply.tool_calls
          (record st { messages = st.messages ++ (assistant reply ∷ []) })

    -- The loop over the steps: how many are left, and the number of the next.
    unfoldable pub run_steps : ℕ → ℕ → AgentState Raised → Run Raised
    run_steps zero step st = record { left_in = st.working; end = step_cap_exceeded }
    run_steps (suc n) step st =
        let rest = replied (run_steps n (suc step)) step st (llm step st.messages) in
        if is_cancelled step 0 then record { left_in = st.working; end = cancelled } else rest

    unfoldable pub run_agent : OntologyRegistry → String → String → ℕ → Run Raised
    run_agent wr system_prompt user_prompt max_steps = run_steps max_steps 1 (record {
      working = wr;
      messages = system system_prompt ∷ user user_prompt ∷ [];
      decisions = [];
    })
