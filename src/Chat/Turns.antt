-- ===== src/Chat/Turns.antt =====
-- `start_turn` and `run_turn_worker` of onto_platform/chat/orchestrator.py: a turn of a chat session
-- is an ingestion job in merge mode, and its events go to the bus. The time of the last turn is left
-- out, and so is the branch for a time limit of the turn that ends the wait with `TimeoutError`; a
-- limit that cancels the run is an interrupt of the worker's model.
pub mod Completion
mod Tests
use lingyunzhi_os_backend.Base.{
  ℕ, suc, String, Bool, true, false, not, ◌<>◌, List, [], ◌∷◌, ◌++◌, Option, none, some, Result, ok,
  err, leb, length, truthy, ◌==◌, if◌then◌else◌,
}
use lingyunzhi_os_backend.Dict.{Dict, lookup, has, insert, erase}
use lingyunzhi_os_backend.Registry.Imports.{merge_mode}
use lingyunzhi_os_backend.Ingestion.Jobs.{
  JobStatus, imported, cancelled, Job, DecisionsReport, create_job,
}
use lingyunzhi_os_backend.Ingestion.Worker.{Tables, Ended, World, run_one_job}
use lingyunzhi_os_backend.Chat.EventBus.{Turns, publish, close}
use lingyunzhi_os_backend.Chat.Sessions.{
  Session, is_active, is_foreign, ChatError, session_not_found, turn_in_flight,
}

pub data TurnEvent : Type 0 where
  turn_start : String → TurnEvent
  -- the turn and the number of tool calls
  turn_complete : String → ℕ → TurnEvent
  -- the kind and the message
  turn_error : String → String → TurnEvent

pub data Role : Type 0 where
  user assistant : Role

-- A row of `chat_messages`
pub record ChatMessage : Type 0 where
  pub session_id : String
  pub turn_index : ℕ
  pub role : Role
  pub content : String
  pub upload_ids : List String

-- The tables, the dict of the turns in flight and the bus.
pub record TurnTables {ℓ} (Raised : Type ℓ) : Type ℓ where
  pub tables : Tables Raised
  pub sessions : Dict Session
  pub messages : List ChatMessage
  pub running : Dict String
  pub bus : Turns TurnEvent

-- Where `start_turn` waits: after the test of the dict, after the query for the session, and after
-- the commit.
pub data Await : Type 0 where
  after_check after_session after_commit : Await

abbrev greater : ℕ → Option ℕ → ℕ
greater n none = n
greater n (some m) = if leb n m then m else n

-- `SELECT MAX(turn_index) … WHERE session_id = :s`
unfoldable pub max_index : String → List ChatMessage → Option ℕ
max_index session_id [] = none
max_index session_id (m ∷ ms) =
    let rest = max_index session_id ms in
    if m.session_id == session_id then some (greater m.turn_index rest) else rest

-- `COALESCE(MAX(turn_index), -1) + 1`
abbrev pub next_index : Option ℕ → ℕ
next_index none = 0
next_index (some n) = suc n

-- `COALESCE(MAX(turn_index), 0)`
abbrev pub last_index : Option ℕ → ℕ
last_index none = 0
last_index (some n) = n

-- `x or y` of texts, of which the first may be missing
abbrev pub text_or : Option String → String → String
text_or none b = b
text_or (some a) b = if truthy a then a else b

-- `len((rec.decisions_report or {}).get("decisions") or [])`
abbrev pub tool_calls {ℓ} : {Raised : Type ℓ} → Option (DecisionsReport Raised) → ℕ
tool_calls none = 0
tool_calls (some report) = length report.decisions

module _ {ℓ} {Raised : Type ℓ} where
  unfoldable pub insert_turn :
      ℕ → String → String → String → List String → TurnTables Raised → TurnTables Raised
  insert_turn now new_id session_id user_message upload_ids st =
      let (jobs, ups) =
        create_job now new_id merge_mode (some user_message) upload_ids st.tables.jobs
          st.tables.uploads in
      record st {
        tables = record (st.tables) { jobs = jobs; uploads = ups };
        messages =
            st.messages
            ++ (record {
              session_id = session_id;
              turn_index = next_index (max_index session_id st.messages);
              role = user;
              content = user_message;
              upload_ids = upload_ids;
            }
                ∷ []);
      }

  -- `self._running[session_id] = turn_id`
  unfoldable pub in_flight : String → String → TurnTables Raised → TurnTables Raised
  in_flight session_id new_id st = record st { running = insert session_id new_id st.running }

  -- `meanwhile` is what others do, to the tables and the dict of the turns in flight, at each `await`.
  unfoldable pub start_found :
      (Await → TurnTables Raised → TurnTables Raised)
      → ℕ
      → String
      → String
      → String
      → List String
      → Option String
      → Option Session
      → TurnTables Raised
      → Result ChatError (TurnTables Raised)
  start_found meanwhile now new_id session_id user_message upload_ids requester none st =
      err session_not_found
  start_found meanwhile now new_id session_id user_message upload_ids requester (some s) st =
      if is_foreign requester s
      then err session_not_found
      else if is_active s.status
      then ok (
          in_flight session_id new_id (
            meanwhile after_commit (
              insert_turn now new_id session_id user_message upload_ids
                (meanwhile after_session st))))
      else err turn_in_flight

  -- The identifier of the turn is the one of its job. The dict is tested at the start and set at the
  -- end, and others may run in between. What raises has written nothing.
  unfoldable pub start_turn :
      (Await → TurnTables Raised → TurnTables Raised)
      → ℕ
      → String
      → String
      → String
      → List String
      → Option String
      → TurnTables Raised
      → Result ChatError (TurnTables Raised)
  start_turn meanwhile now new_id session_id user_message upload_ids requester st =
      if has session_id st.running
      then err turn_in_flight
      else let st' = meanwhile after_check st in
        start_found meanwhile now new_id session_id user_message upload_ids requester
          (lookup session_id st'.sessions) st'

  -- `text_summary`
  unfoldable pub summary_of : JobStatus → Job Raised → String
  summary_of imported job = "已完成本轮变更。"
  summary_of cancelled job = "本轮已取消。"
  summary_of _ job = "本轮失败：" <> text_or (some job.phase_message) (text_or job.error_code "未知错误")

  -- The last event of a turn.
  unfoldable pub outcome_event : String → JobStatus → Job Raised → TurnEvent
  outcome_event turn_id imported job = turn_complete turn_id (tool_calls job.decisions_report)
  outcome_event turn_id _ job = turn_error (text_or job.error_code "unknown") job.phase_message

  -- After the job: the assistant's message and the last event, unless something was raised.
  unfoldable pub turn_over :
      String → String → Option (Job Raised) → TurnTables Raised → TurnTables Raised
  turn_over session_id turn_id none st = st
  turn_over session_id turn_id (some job) st = record st {
    messages =
        st.messages
        ++ (record {
          session_id = session_id;
          turn_index = last_index (max_index session_id st.messages);
          role = assistant;
          content = summary_of job.status job;
          upload_ids = [];
        }
            ∷ []);
    bus = publish turn_id (outcome_event turn_id job.status job) st.bus;
  }

  unfoldable pub after_job : String → String → Ended Raised → TurnTables Raised → TurnTables Raised
  after_job session_id turn_id ended st =
      let st' = record st { tables = ended.tables } in
      if ended.returned
      then turn_over session_id turn_id (lookup turn_id ended.tables.jobs) st'
      else st'

  -- The `finally`
  unfoldable pub turn_left : String → String → TurnTables Raised → TurnTables Raised
  turn_left session_id turn_id st = record st {
    running = erase session_id st.running;
    bus = close turn_id st.bus;
  }

  unfoldable pub run_turn_worker :
      World Raised → String → String → TurnTables Raised → TurnTables Raised
  run_turn_worker w session_id turn_id st =
      let started = record st { bus = publish turn_id (turn_start turn_id) st.bus } in
      turn_left session_id turn_id
        (after_job session_id turn_id (run_one_job w turn_id started.tables) started)
