-- ===== src/Ingestion/Agent/Tests.antt =====
-- A run of the agent with a model that validates the working registry, tries a tool that does not
-- exist, and is done.
use lingyunzhi_os_backend.Base.{
  ℕ, zero, suc, String, ◌≡◌, ◌≤◌, refl, Bool, false, List, [], ◌∷◌, none, some, Result, ok, err,
}
use lingyunzhi_os_backend.ProtoModels.{empty_registry}
use lingyunzhi_os_backend.Ingestion.Tools.{Arguments, unknown_tool, dispatch_agent_call}
use lingyunzhi_os_backend.Ingestion.Agent.{
  ToolCall, Reply, Message, AgentDecision, finished, succeeded, failed_unknown_tool, or_empty,
  outcome_of, recorded, called, after_calls, run_calls, answered, replied, run_steps, run_agent,
}
use lingyunzhi_os_backend.Ingestion.Agent.Bounds.{run_agent_bounded}
use lingyunzhi_os_backend.Ingestion.Agent.Edits.{Edited, run_agent-Edited}

-- Unfolding this unfolds a run of the agent.
unfoldable running : Unit {0}
unfolding dispatch_agent_call or_empty outcome_of recorded called after_calls run_calls answered
    replied run_steps run_agent
running = tt

abbrev without_arguments : Arguments String
without_arguments = record {
  shared_definition = err "definition";
  interface_definition = err "definition";
  object_definition = err "definition";
  link_definition = err "definition";
  action_definition = err "definition";
  rid = err "rid";
  asset_mapping = err "asset_mapping";
  registry = err "registry";
  mode = err "mode";
}

abbrev call : String → ToolCall String
call tool = record { id = "1"; name = tool; arguments = without_arguments; reason = none }

abbrev model : ℕ → List (Message String) → Result String (Reply String)
model (suc zero) messages =
    ok (record { content = none; tool_calls = call "working_validate" ∷ call "working_guess" ∷ [] })
model _ messages = ok (record { content = some "done"; tool_calls = [] })

abbrev never : ℕ → ℕ → Bool
never step i = false

abbrev decided : List (AgentDecision String)
decided =
    record { tool = "working_validate"; outcome = succeeded; reason = ""; error = none }
    ∷ record {
      tool = "working_guess";
      outcome = failed_unknown_tool;
      reason = "";
      error = some (unknown_tool "working_guess");
    }
    ∷ []

run_twice :
    (run_agent model never [] empty_registry "system" "user" 3).end ≡ finished "done" 2 decided
unfolding running
run_twice = refl

run_agent_bounded_example : (1 ≤ 2) × (2 ≤ 3)
run_agent_bounded_example =
    run_agent_bounded model never [] empty_registry "system" "user" 3 run_twice

run_agent-Edited_example :
    Edited [] empty_registry (run_agent model never [] empty_registry "system" "user" 3).left_in
run_agent-Edited_example = run_agent-Edited [] empty_registry model never "system" "user" 3
