-- ===== src/Ingestion/Agent/Edits.antt =====
-- What the agent of onto_platform/ingestion can do to the working registry: nothing but the edits of
-- onto_platform/registry, each accepted by its own check.
use lingyunzhi_os_backend.Base.{
  ℕ, zero, suc, String, ◌≡◌, refl, Bool, true, false, List, [], ◌∷◌, inl, inr, Bool-cases, Result,
  ok, err, ok_injective, Option, ◌>>=◌, ◌==◌, if◌then◌else◌,
}
use mathlib.Core.Path.{subst}
use lingyunzhi_os_backend.ProtoModels.{AssetMapping, OntologyRegistry}
use lingyunzhi_os_backend.Registry.Crud.{set_asset_mapping}
use lingyunzhi_os_backend.Registry.Crud.Errors.{Crud}
use lingyunzhi_os_backend.Registry.Crud.Entities.{Entity, put, delete}
use lingyunzhi_os_backend.Registry.Checks.Refs.{Kind}
use lingyunzhi_os_backend.Registry.Imports.{ImportMode, import_into_registry}
use lingyunzhi_os_backend.Ingestion.Tools.{
  Arguments, AgentError, invalid, refused, Called, argument, replaced, put_tool, delete_tool,
  asset_tool, import_tool, dispatch_agent_call,
}
use lingyunzhi_os_backend.Ingestion.Agent.{
  ToolCall, Reply, Message, AgentState, Run, recorded, called, after_calls, run_calls, answered,
  replied, run_steps, run_agent,
}

-- The registries that accepted edits lead to.
pub data Edited (ids : List String) (start : OntologyRegistry) : OntologyRegistry → Type 0 where
  unchanged : Edited ids start start
  then_put :
      {reg r : OntologyRegistry} (e : Entity)
      → Edited ids start reg
      → put reg e ids ≡ ok r
      → Edited ids start r
  then_delete :
      {reg r : OntologyRegistry} (k : Kind) (rid : String)
      → Edited ids start reg
      → delete reg k rid ≡ ok r
      → Edited ids start r
  then_bind :
      {reg r : OntologyRegistry} (rid : String) (mapping : AssetMapping)
      → Edited ids start reg
      → set_asset_mapping reg rid mapping ids ≡ ok r
      → Edited ids start r
  then_import :
      {reg r : OntologyRegistry} (incoming : OntologyRegistry) (mode : ImportMode)
      → Edited ids start reg
      → import_into_registry reg incoming mode ids ≡ ok r
      → Edited ids start r

moved :
    (ids : List String) (start : OntologyRegistry) {a c : Called}
    → a ≡ c
    → Edited ids start a.working
    → Edited ids start c.working
moved ids start e h = subst (λ (x : Called). Edited ids start x.working) e h

module _ {ℓ} {Raised : Type ℓ} (ids : List String) (start : OntologyRegistry) where
  -- A call that succeeds leads to an edited registry.
  abbrev Safe : Result (AgentError Raised) Called → Type ℓ
  Safe r = (c : Called) → r ≡ ok c → Edited ids start c.working

  if-Safe :
      (b : Bool) (x y : Result (AgentError Raised) Called)
      → Safe x
      → Safe y
      → Safe (if b then x else y)
  if-Safe true x y hx hy = hx
  if-Safe false x y hx hy = hy

  err-Safe : (x : AgentError Raised) → Safe (err x)
  err-Safe x c e = absurd cc

  replaced-Safe :
      (r : Crud OntologyRegistry)
      → ((reg : OntologyRegistry) → r ≡ ok reg → Edited ids start reg)
      → Safe (replaced r)
  unfolding replaced
  replaced-Safe (ok reg) h c e = moved ids start (ok_injective e) (h reg refl)
  replaced-Safe (err x) h c e = err-Safe (refused x) c e

  argument-Safe {κ} :
      {A : Type κ} (r : Result Raised A) (k : A → Result (AgentError Raised) Called)
      → ((a : A) → Safe (k a))
      → Safe (argument r >>= k)
  unfolding argument
  argument-Safe (ok a) k h = λ c e. h a c e
  argument-Safe (err e) k h = err-Safe (invalid e)

  module _ (wr : OntologyRegistry) (so_far : Edited ids start wr) where
    delete-Safe :
        (k : Kind) (rid : Result Raised String) → Safe (delete_tool (λ reg. delete reg k) wr rid)
    unfolding delete_tool
    delete-Safe k rid =
        argument-Safe rid _ (λ r. replaced-Safe (delete wr k r) (λ reg. then_delete k r so_far))

    put-Safe {κ} :
        {D : Type κ} (entity : D → Entity) (definition : Result Raised D)
        → Safe (put_tool (λ reg d. put reg (entity d)) wr definition ids)
    unfolding put_tool
    put-Safe entity definition =
        argument-Safe definition _
          (λ d. replaced-Safe (put wr (entity d) ids) (λ reg. then_put (entity d) so_far))

    asset-Safe : (args : Arguments Raised) → Safe (asset_tool wr args ids)
    unfolding asset_tool
    asset-Safe args = argument-Safe args.rid _ (λ rid.
        argument-Safe args.asset_mapping _
          (λ am. replaced-Safe (set_asset_mapping wr rid am ids) (λ reg. then_bind rid am so_far)))

    import-Safe : (args : Arguments Raised) → Safe (import_tool wr args ids)
    unfolding import_tool
    import-Safe args = argument-Safe args.registry _ (λ incoming. argument-Safe args.mode _ (λ mode.
        replaced-Safe (import_into_registry wr incoming mode ids)
          (λ reg. then_import incoming mode so_far)))

    dispatch-Safe :
        (name : String) (args : Arguments Raised) → Safe (dispatch_agent_call wr name args ids)
    unfolding dispatch_agent_call
    dispatch-Safe name args =
        if-Safe (name == "working_put_shared_property_type") _ _
          (put-Safe Entity.shared_property_type args.shared_definition)
          (if-Safe (name == "working_put_interface_type") _ _
            (put-Safe Entity.interface_type args.interface_definition)
            (if-Safe (name == "working_put_object_type") _ _
              (put-Safe Entity.object_type args.object_definition)
              (if-Safe (name == "working_put_link_type") _ _
                (put-Safe Entity.link_type args.link_definition)
                (if-Safe (name == "working_put_action_type") _ _
                  (put-Safe Entity.action_type args.action_definition)
                  (if-Safe (name == "working_delete_shared_property_type") _ _
                    (delete-Safe Kind.shared_property_types args.rid)
                    (if-Safe (name == "working_delete_interface_type") _ _
                      (delete-Safe Kind.interface_types args.rid)
                      (if-Safe (name == "working_delete_object_type") _ _
                        (delete-Safe Kind.object_types args.rid)
                        (if-Safe (name == "working_delete_link_type") _ _
                          (delete-Safe Kind.link_types args.rid)
                          (if-Safe (name == "working_delete_action_type") _ _
                            (delete-Safe Kind.action_types args.rid)
                            (if-Safe (name == "working_set_asset_mapping") _ _ (asset-Safe args) (
                              if-Safe (name == "working_import") _ _ (import-Safe args) (
                                if-Safe (name == "working_validate") _ _
                                  (λ c e. moved ids start (ok_injective e) so_far)
                                  (err-Safe _)))))))))))))

  recorded-Edited :
      (call : ToolCall Raised) (st : AgentState Raised) (r : Result (AgentError Raised) Called)
      → Edited ids start st.working
      → Safe r
      → Edited ids start (recorded call st r).working
  unfolding recorded
  recorded-Edited call st (ok c) so_far safe = safe c refl
  recorded-Edited call st (err e) so_far safe = so_far

  after_calls-Edited :
      (more : AgentState Raised → Run Raised)
      → ((st : AgentState Raised)
          → Edited ids start st.working
          → Edited ids start (more st).left_in)
      → (r : AgentState Raised × Bool) → Edited ids start (r.0).working
      → Edited ids start (after_calls more r).left_in
  unfolding after_calls
  after_calls-Edited more h (st, true) so_far = so_far
  after_calls-Edited more h (st, false) so_far = h st so_far

  module _ (llm : ℕ → List (Message Raised) → Result Raised (Reply Raised))
      (is_cancelled : ℕ → ℕ → Bool) where
    run_calls-Edited :
        (step i : ℕ) (calls : List (ToolCall Raised)) (st : AgentState Raised)
        → Edited ids start st.working
        → Edited ids start ((run_calls llm is_cancelled ids step i calls st).0).working
    unfolding run_calls called
    run_calls-Edited step i [] st so_far = so_far
    run_calls-Edited step i (call ∷ calls) st so_far = elim (Bool-cases (is_cancelled step i)) [
      | inl stopped ↦ rw stopped so_far
      | inr going ↦ rw going (
          run_calls-Edited step (suc i) calls _ (
            recorded-Edited call st _ so_far
              (dispatch-Safe st.working so_far call.name call.arguments)))
    ]

    answered-Edited :
        (more : AgentState Raised → Run Raised)
        → ((st : AgentState Raised)
            → Edited ids start st.working
            → Edited ids start (more st).left_in)
        → (step : ℕ) (content : Option String) (calls : List (ToolCall Raised))
        → (st : AgentState Raised) → Edited ids start st.working
        → Edited ids start (answered llm is_cancelled ids more step content calls st).left_in
    unfolding answered
    answered-Edited more h step content [] st so_far = so_far
    answered-Edited more h step content (call ∷ calls) st so_far =
        after_calls-Edited more h _ (run_calls-Edited step 1 (call ∷ calls) st so_far)

    replied-Edited :
        (more : AgentState Raised → Run Raised)
        → ((st : AgentState Raised)
            → Edited ids start st.working
            → Edited ids start (more st).left_in)
        → (step : ℕ) (st : AgentState Raised) → Edited ids start st.working
        → (r : Result Raised (Reply Raised))
        → Edited ids start (replied llm is_cancelled ids more step st r).left_in
    unfolding replied
    replied-Edited more h step st so_far (err e) = so_far
    replied-Edited more h step st so_far (ok reply) =
        answered-Edited more h step reply.content reply.tool_calls _ so_far

    run_steps-Edited :
        (n step : ℕ) (st : AgentState Raised)
        → Edited ids start st.working
        → Edited ids start (run_steps llm is_cancelled ids n step st).left_in
    unfolding run_steps
    run_steps-Edited zero step st so_far = so_far
    run_steps-Edited (suc n) step st so_far = elim (Bool-cases (is_cancelled step 0)) [
      | inl stopped ↦ rw stopped so_far
      | inr going ↦ rw going (
          replied-Edited (run_steps llm is_cancelled ids n (suc step))
            (run_steps-Edited n (suc step)) step st so_far (llm step st.messages))
    ]

    -- However a run ends, the working registry is what a sequence of accepted edits made of the one it
    -- started with: puts and imports that the validator passed, deletions of what nothing refers to,
    -- and asset mappings.
    pub run_agent-Edited :
        (system_prompt user_prompt : String) (max_steps : ℕ)
        → Edited ids start
            (run_agent llm is_cancelled ids start system_prompt user_prompt max_steps).left_in
    unfolding run_agent
    run_agent-Edited system_prompt user_prompt max_steps = run_steps-Edited max_steps 1 _ unchanged
