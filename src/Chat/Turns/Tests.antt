-- ===== src/Chat/Turns/Tests.antt =====
-- A turn of an active session with a model that is done at once.
use lingyunzhi_os_backend.Base.{String, ◌≡◌, refl, false, [], ◌∷◌, none, some, ok, err}
use lingyunzhi_os_backend.Dict.{lookup, has, insert}
use lingyunzhi_os_backend.ProtoModels.{empty_registry}
use lingyunzhi_os_backend.Registry.Store.{initial}
use lingyunzhi_os_backend.Ingestion.Jobs.{create_job, link_uploads, link_upload}
use lingyunzhi_os_backend.Ingestion.Worker.{stopped, World}
use lingyunzhi_os_backend.Chat.EventBus.{state, turn_or_fresh}
use lingyunzhi_os_backend.Chat.Sessions.{active, Session, turn_in_flight, is_foreign}
use lingyunzhi_os_backend.Chat.Turns.{
  Await, after_check, after_session, after_commit, in_flight, TurnTables, max_index, insert_turn,
  start_found, start_turn, run_turn_worker,
}
use lingyunzhi_os_backend.Chat.Turns.Completion.{EndsTurn, start_turn-EndsTurn}

-- Unfolding this unfolds the start of a turn.
unfoldable running : Unit {0}
unfolding lookup has insert create_job link_uploads link_upload state turn_or_fresh is_foreign
    max_index insert_turn in_flight start_found start_turn
running = tt

abbrev world : World String
world = record {
  extract = λ up. stopped;
  llm = λ step messages. ok (record { content = some "done"; tool_calls = [] });
  is_cancelled = λ step i. false;
  interrupted = none;
  connection_ids = [];
  max_steps = 3;
  system_prompt = "system";
  others = λ m t. t;
  time = λ m. 2;
}

abbrev session : Session
session = record {
  token_id = "1";
  status = active;
  pre_session_registry = empty_registry;
  pre_session_version = 0;
}

abbrev before : TurnTables String
before = record {
  tables = record { registries = initial; jobs = []; uploads = [] };
  sessions = ("c", session) ∷ [];
  messages = [];
  running = [];
  bus = [];
}

abbrev quiet : Await → TurnTables String → TurnTables String
quiet a t = t

abbrev begun : TurnTables String
begun = in_flight "c" "t" (insert_turn 1 "t" "c" "Add a pump." [] before)

starts : start_turn quiet 1 "t" "c" "Add a pump." [] (some "1") before ≡ ok begun
unfolding running
starts = refl

starts_once : start_turn quiet 1 "u" "c" "And a valve." [] (some "1") begun ≡ err turn_in_flight
unfolding running
starts_once = refl

-- A second call runs as a whole while the first one waits for the session.
abbrev second_call : Await → TurnTables String → TurnTables String
second_call after_check t = in_flight "c" "u" (insert_turn 1 "u" "c" "And a valve." [] t)
second_call after_session t = t
second_call after_commit t = t

second_accepted :
    start_turn quiet 1 "u" "c" "And a valve." [] (some "1") before
    ≡ ok (second_call after_check before)
unfolding running
second_accepted = refl

first_accepted_too :
    start_turn second_call 1 "t" "c" "Add a pump." [] (some "1") before
    ≡ ok (
        in_flight "c" "t" (insert_turn 1 "t" "c" "Add a pump." [] (second_call after_check before)))
unfolding running
first_accepted_too = refl

is_open : (state "t" begun.bus).closed ≡ false
unfolding running
is_open = refl

start_turn-EndsTurn_example : EndsTurn "c" "t" begun (run_turn_worker world "c" "t" begun)
start_turn-EndsTurn_example =
    start_turn-EndsTurn quiet world 1 "t" "c" "Add a pump." [] (some "1") before (λ m t p. p)
      (λ a t p. p) starts is_open
