-- ===== src/Chat/Turns/Completion.antt =====
-- How `run_turn_worker` of onto_platform/chat/orchestrator.py leaves a turn: the worker of
-- ingestion/workers.py, the bus and the dict of the turns in flight together.
use lingyunzhi_os_backend.Base.{
  String, ◌≡◌, refl, ◌∙◌, ap, inl, inr, true, false, List, [], ◌∷◌, ◌++◌, Option, none, some,
  eq_refl, ℕ, Result, ok, err, ok_injective, Bool-cases,
}
use mathlib.Core.Path.{subst}
use lingyunzhi_os_backend.Dict.{has-lookup, Dict, lookup, has, erase, lookup-insert, lookup-erase}
use lingyunzhi_os_backend.Registry.Imports.{merge_mode}
use lingyunzhi_os_backend.Ingestion.Jobs.{create_job, new_job, Job}
use lingyunzhi_os_backend.Ingestion.Worker.{Tables, Ended, World, Moment, run_one_job}
use lingyunzhi_os_backend.Ingestion.Worker.Ends.{IsPresent, IsOver, run_one_job-IsDone}
use lingyunzhi_os_backend.Chat.EventBus.{
  TurnState, Turns, state, turn_or_fresh, published, closed_turn, publish, close, close_found,
}
use lingyunzhi_os_backend.Chat.Sessions.{Session, ChatError, is_foreign, is_active}
use lingyunzhi_os_backend.Chat.Turns.{
  Await, after_check, after_session, after_commit, in_flight, TurnEvent, turn_start, ChatMessage,
  summary_of, insert_turn, start_found, start_turn, TurnTables, outcome_event, turn_over, after_job,
  turn_left, run_turn_worker,
}

module _ {ℓ} {Event : Type ℓ} where
  state-publish :
      (t : String) (ev : Event) (turns : Turns Event)
      → state t (publish t ev turns) ≡ published ev (state t turns)
  unfolding state publish turn_or_fresh
  state-publish t ev turns = rw lookup-insert (rw eq_refl refl)

  lookup-publish :
      (t : String) (ev : Event) (turns : Turns Event)
      → lookup t (publish t ev turns) ≡ some (published ev (state t turns))
  unfolding publish
  lookup-publish t ev turns = rw lookup-insert (rw eq_refl refl)

  state-close :
      (t : String) (turns : Turns Event) {st : TurnState Event}
      → lookup t turns ≡ some st
      → state t (close t turns) ≡ closed_turn st
  unfolding state close close_found turn_or_fresh
  state-close t turns h = rw h (rw lookup-insert (rw eq_refl refl))

  -- An open turn keeps what is published.
  published_open :
      (ev : Event) (st : TurnState Event)
      → st.closed ≡ false
      → ((published ev st).closed ≡ false) × ((published ev st).buffer ≡ st.buffer ++ (ev ∷ []))
  unfolding published
  published_open ev st h = rw h (refl, refl)

  closed_open :
      (st : TurnState Event)
      → st.closed ≡ false
      → ((closed_turn st).closed ≡ true) × ((closed_turn st).buffer ≡ st.buffer)
  unfolding closed_turn
  closed_open st h = rw h (refl, refl)

err_ok {ℓ} : {A : Type ℓ} {e : ChatError} {a : A} → ◌≡◌ {A = Result ChatError A} (err e) (ok a) → ⊥
err_ok h = cc

has-erase : {A : Type 0} (k : String) (d : Dict A) → has k (erase k d) ≡ false
has-erase k d = rw has-lookup (rw lookup-erase (rw eq_refl refl))

module _ {ℓ} {Raised : Type ℓ} where
  -- The job is over, the session may have another turn, the assistant's message tells how the job
  -- ended, and the turn's events are the start and that end, and no more will come.
  abbrev pub EndsTurn : String → String → TurnTables Raised → TurnTables Raised → Type ℓ
  EndsTurn session_id turn_id before after =
      (job : Job Raised) × (lookup turn_id after.tables.jobs ≡ some job)
      × IsOver job
      × (m : ChatMessage) × (after.messages ≡ before.messages ++ (m ∷ []))
      × (m.content ≡ summary_of job.status job)
      × (has session_id after.running ≡ false)
      × ((state turn_id after.bus).closed ≡ true)
      × ((state turn_id after.bus).buffer
          ≡ (state turn_id before.bus).buffer
            ++ (turn_start turn_id ∷ [])
            ++ (outcome_event turn_id job.status job ∷ []))

  after_job-returned :
      (session_id turn_id : String) (ended : Ended Raised) (st : TurnTables Raised)
      {job : Job Raised}
      → ended.returned ≡ true
      → lookup turn_id ended.tables.jobs ≡ some job
      → turn_over session_id turn_id (some job) (record st { tables = ended.tables })
        ≡ after_job session_id turn_id ended st
  unfolding after_job
  after_job-returned session_id turn_id ended st returned found = rw returned (rw found refl)

  module _ (w : World Raised) (session_id turn_id : String)
      (keeps : (m : Moment) (t : Tables Raised)
        → IsPresent w turn_id t
        → IsPresent w turn_id (w.others m t)) where
    left-EndsTurn :
        (before : TurnTables Raised) (tables : Tables Raised) (job : Job Raised)
        → lookup turn_id tables.jobs ≡ some job
        → IsOver job
        → (state turn_id before.bus).closed ≡ false
        → EndsTurn session_id turn_id before (
            turn_left session_id turn_id (
              turn_over session_id turn_id (some job) (record before {
                tables = tables;
                bus = publish turn_id (turn_start turn_id) before.bus;
              })))
    unfolding turn_left turn_over
    left-EndsTurn before tables job found over is_open =
        let first = turn_start turn_id in
        let last = outcome_event turn_id job.status job in
        let st = state turn_id before.bus in
        let bus = publish turn_id first before.bus in
        let (open1, buffer1) = published_open first st is_open in
        let e = state-publish turn_id first before.bus in
        let (open2, buffer2) =
          published_open last (state turn_id bus)
            (ap (λ (x : TurnState TurnEvent). x.closed) e ∙ open1) in
        let (shut, kept) = closed_open (published last (state turn_id bus)) open2 in
        let ends =
          state-close turn_id (publish turn_id last bus) (lookup-publish turn_id last bus) in
        (
          job,
          found,
          over,
          _,
          refl,
          refl,
          has-erase session_id before.running,
          ap (λ (x : TurnState TurnEvent). x.closed) ends ∙ shut,
          ap (λ (x : TurnState TurnEvent). x.buffer) ends
              ∙ kept
              ∙ buffer2
              ∙ ap (λ (x : TurnState TurnEvent). x.buffer ++ (last ∷ [])) e
              ∙ ap (λ l. l ++ (last ∷ [])) buffer1,
        )

    run_turn_worker-EndsTurn :
        (st : TurnTables Raised)
        → IsPresent w turn_id st.tables
        → (state turn_id st.bus).closed ≡ false
        → EndsTurn session_id turn_id st (run_turn_worker w session_id turn_id st)
    unfolding run_turn_worker
    run_turn_worker-EndsTurn st p is_open =
        let (returned, job, found, over) = run_one_job-IsDone w turn_id keeps st.tables p in
        subst (λ x. EndsTurn session_id turn_id st (turn_left session_id turn_id x))
          (after_job-returned session_id turn_id (run_one_job w turn_id st.tables) _ returned found)
          (left-EndsTurn st (run_one_job w turn_id st.tables).tables job found over is_open)

module _ {ℓ} {Raised : Type ℓ} (meanwhile : Await → TurnTables Raised → TurnTables Raised) where
  -- The tables that a turn is begun in.
  abbrev begun : ℕ → String → String → String → List String → TurnTables Raised → TurnTables Raised
  begun now new_id session_id message ups st = in_flight session_id new_id (
      meanwhile after_commit
        (insert_turn now new_id session_id message ups (meanwhile after_session st)))

  start_found-ok :
      (now : ℕ) (new_id session_id user_message : String) (upload_ids : List String)
      (requester : Option String) (found : Option Session) (st : TurnTables Raised)
      {st' : TurnTables Raised}
      → start_found meanwhile now new_id session_id user_message upload_ids requester found st
        ≡ ok st'
      → begun now new_id session_id user_message upload_ids st ≡ st'
  unfolding start_found
  start_found-ok now new_id session_id message ups requester none st h = absurd (err_ok h)
  start_found-ok now new_id session_id message ups requester (some s) st h =
      elim (Bool-cases (is_foreign requester s)) [
        | inl foreign ↦ absurd (err_ok (rw foreign at h))
        | inr own ↦ elim (Bool-cases (is_active s.status)) [
          | inl active ↦ ok_injective (rw active at (rw own at h))
          | inr idle ↦ absurd (err_ok (rw idle at (rw own at h)))
        ]
      ]

  start_turn-ok :
      (now : ℕ) (new_id session_id user_message : String) (upload_ids : List String)
      (requester : Option String) (st : TurnTables Raised) {st' : TurnTables Raised}
      → start_turn meanwhile now new_id session_id user_message upload_ids requester st ≡ ok st'
      → begun now new_id session_id user_message upload_ids (meanwhile after_check st) ≡ st'
  unfolding start_turn
  start_turn-ok now new_id session_id message ups requester st h =
      elim (Bool-cases (has session_id st.running)) [
        | inl busy ↦ absurd (err_ok (rw busy at h))
        | inr idle ↦ start_found-ok now new_id session_id message ups requester _ _ (rw idle at h)
      ]

  insert_turn-IsPresent :
      (w : World Raised) (now : ℕ) (new_id session_id user_message : String)
      (upload_ids : List String) (st : TurnTables Raised)
      → IsPresent w new_id (insert_turn now new_id session_id user_message upload_ids st).tables
  unfolding insert_turn create_job
  insert_turn-IsPresent w now new_id session_id message ups st =
      (new_job now merge_mode (some message), rw lookup-insert (rw eq_refl refl))

  begun-IsPresent :
      (w : World Raised) (now : ℕ) (new_id session_id user_message : String)
      (upload_ids : List String) (st : TurnTables Raised)
      → ((a : Await) (t : TurnTables Raised)
          → IsPresent w new_id t.tables
          → IsPresent w new_id (meanwhile a t).tables)
      → IsPresent w new_id (begun now new_id session_id user_message upload_ids st).tables
  unfolding in_flight
  begun-IsPresent w now new_id session_id message ups st kept =
      kept after_commit _
        (insert_turn-IsPresent w now new_id session_id message ups (meanwhile after_session st))

  -- A turn that `start_turn` accepts, whatever others do while it waits: if nobody deletes its job,
  -- the run is cancelled nowhere but in the extraction and the run of the agent, and the turn is open
  -- on the bus when the worker begins, the worker ends it, whatever the job runs into. The job has a
  -- terminal status and a time at which it finished, the session has no turn in flight, one message
  -- of the assistant tells how the job ended, and the bus has got the start of the turn and its end,
  -- complete or error, and is closed. From the return of `start_turn` on, others write to the job's
  -- tables alone. It is not said that the turn is the session's only one.
  pub start_turn-EndsTurn :
      (w : World Raised) (now : ℕ) (new_id session_id user_message : String)
      (upload_ids : List String) (requester : Option String) (st : TurnTables Raised)
      {st' : TurnTables Raised}
      → ((m : Moment) (t : Tables Raised)
          → IsPresent w new_id t
          → IsPresent w new_id (w.others m t))
      → ((a : Await) (t : TurnTables Raised)
          → IsPresent w new_id t.tables
          → IsPresent w new_id (meanwhile a t).tables)
      → start_turn meanwhile now new_id session_id user_message upload_ids requester st ≡ ok st'
      → (state new_id st'.bus).closed ≡ false
      → EndsTurn session_id new_id st' (run_turn_worker w session_id new_id st')
  start_turn-EndsTurn w now new_id session_id message ups requester st {st'} keeps kept h is_open =
      run_turn_worker-EndsTurn w session_id new_id keeps st'
        (subst (λ x. IsPresent w new_id x.tables)
          (start_turn-ok now new_id session_id message ups requester st h)
          (begun-IsPresent w now new_id session_id message ups (meanwhile after_check st) kept))
        is_open
