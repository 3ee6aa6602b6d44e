-- ===== src/Ingestion/Agent/Bounds.antt =====
-- The step cap of onto_platform/ingestion/agent.py.
use lingyunzhi_os_backend.Base.{
  ℕ, zero, suc, ◌+◌, String, ◌≡◌, ◌≤◌, Bool, true, false, List, [], ◌∷◌, ◌++◌, arith, Bool-cases,
  inl, inr, Result, ok, err,
}
use mathlib.Core.Path.{subst}
use lingyunzhi_os_backend.ProtoModels.{OntologyRegistry}
use lingyunzhi_os_backend.Ingestion.Agent.{
  ToolCall, Reply, Message, AgentDecision, End, finished, cancelled, step_cap_exceeded, llm_failed,
  AgentState, Run, after_calls, run_calls, answered, replied, run_steps, run_agent,
}

module _ {ℓ} {Raised : Type ℓ} where
  -- A run that finishes does so at a step between two bounds.
  abbrev Within : ℕ → ℕ → End Raised → Type 0
  Within first last (finished message step decisions) = (first ≤ step) × (step ≤ last)
  Within first last cancelled = Unit
  Within first last step_cap_exceeded = Unit
  Within first last (llm_failed e) = Unit

  after_calls-Within :
      (first last : ℕ) (more : AgentState Raised → Run Raised)
      → ((st : AgentState Raised) → Within first last (more st).end)
      → (r : AgentState Raised × Bool) → Within first last (after_calls more r).end
  unfolding after_calls
  after_calls-Within first last more h (st, true) = tt
  after_calls-Within first last more h (st, false) = h st

  module _ (llm : ℕ → List (Message Raised) → Result Raised (Reply Raised))
      (is_cancelled : ℕ → ℕ → Bool) (ids : List String) where
    replied-Within :
        (first last : ℕ) (more : AgentState Raised → Run Raised)
        → ((st : AgentState Raised) → Within first last (more st).end)
        → (step : ℕ) → first ≤ step
        → step ≤ last
        → (st : AgentState Raised) (r : Result Raised (Reply Raised))
        → Within first last (replied llm is_cancelled ids more step st r).end
    unfolding replied answered
    replied-Within first last more h step low high st (err e) = tt
    replied-Within first last more h step low high st (ok reply) = answered-Within reply.tool_calls
      where
        next : AgentState Raised
        next = record st { messages = st.messages ++ (Message.assistant reply ∷ []) }

        answered-Within :
            (calls : List (ToolCall Raised))
            → Within first last
                (answered llm is_cancelled ids more step reply.content calls next).end
        answered-Within [] = (low, high)
        answered-Within (call ∷ calls) =
            after_calls-Within first last more h
              (run_calls llm is_cancelled ids step 1 (call ∷ calls) next)

    run_steps-Within :
        (first last n step : ℕ)
        → first ≤ step
        → step + n ≤ suc last
        → (st : AgentState Raised)
        → Within first last (run_steps llm is_cancelled ids n step st).end
    unfolding run_steps
    run_steps-Within first last zero step low high st = tt
    run_steps-Within first last (suc n) step low high st = elim (Bool-cases (is_cancelled step 0)) [
      | inl stopped ↦ rw stopped tt
      | inr going ↦ rw going (
          replied-Within first last (run_steps llm is_cancelled ids n (suc step))
            (run_steps-Within first last n (suc step) (omega arith) (omega arith)) step low
            (omega arith) st (llm step st.messages))
    ]

    -- A run that finishes does so at a step from 1 to `max_steps`.
    pub run_agent_bounded :
        (wr : OntologyRegistry) (system_prompt user_prompt : String) (max_steps : ℕ)
        {message : String} {steps : ℕ} {decisions : List (AgentDecision Raised)}
        → (run_agent llm is_cancelled ids wr system_prompt user_prompt max_steps).end
          ≡ finished message steps decisions
        → (1 ≤ steps) × (steps ≤ max_steps)
    unfolding run_agent
    run_agent_bounded wr system_prompt user_prompt max_steps h =
        subst (Within 1 max_steps) h
          (run_steps-Within 1 max_steps max_steps 1 (omega arith) (omega arith) _)
