-- ===== src/Chat/Sessions.antt =====
-- Creating, saving and cancelling a session: `ChatSessionOrchestrator` of
-- onto_platform/chat/orchestrator.py. A method runs as one step on the
-- sessions; what others commit to the registries between the load and the save of a cancel is an
-- argument of it. What raises before the commit is rolled back. The registry of a session is
-- kept as the one that its JSON encodes, and the identifier of a new session is the database's.
pub mod Cancelling
mod Tests
use lingyunzhi_os_backend.Base.{
  ℕ, String, Bool, true, false, not, ◌&&◌, List, [], ◌∷◌, Option, none, some, Result, ok, err, ◌==◌,
  leb, ◌+◌, ◌<>◌, if◌then◌else◌,
}
use lingyunzhi_os_backend.Dict.{Dict, lookup, has, insert, erase}
use lingyunzhi_os_backend.ProtoModels.{OntologyRegistry}
use lingyunzhi_os_backend.Registry.Store.{Registries, StaleVersion, staging, load, save}

pub data Status : Type 0 where
  active saving cancelling : Status

-- A row of `chat_sessions`
pub record Session : Type 0 where
  pub token_id : String
  pub status : Status
  pub pre_session_registry : OntologyRegistry
  pub pre_session_version : ℕ

-- The two tables and the dict of the turns in flight.
pub record ChatState : Type 0 where
  pub registries : Registries
  pub sessions : Dict Session
  pub running : Dict String

pub data ChatError : Type 0 where
  session_not_found : ChatError
  turn_in_flight : ChatError
  stale_staging : StaleVersion → ChatError
  too_many_sessions : ChatError

-- What a method leaves, and what it raises.
pub record Left : Type 0 where
  pub state : ChatState
  pub raised : Option ChatError

abbrev pub returns : ChatState → Left
returns st = record { state = st; raised = none }

abbrev pub raises : ChatState → ChatError → Left
raises st e = record { state = st; raised = some e }

-- `status = 'active'`
abbrev pub is_active : Status → Bool
is_active active = true
is_active saving = false
is_active cancelling = false

-- `SELECT count(*) … WHERE token_id = :t AND status = 'active'`
unfoldable pub count_active : String → Dict Session → ℕ
count_active token_id [] = 0
count_active token_id ((i, s) ∷ d) =
    (if s.token_id == token_id && is_active s.status then 1 else 0) + count_active token_id d

-- `self._max_sessions_per_token is not None and … >= self._max_sessions_per_token`
unfoldable pub is_full : Option ℕ → ℕ → Bool
is_full none count = false
is_full (some limit) count = leb limit count

unfoldable pub create_session : Option ℕ → String → String → ChatState → Left
create_session limit new_id token_id st =
    let snap = load st.registries staging in
    if is_full limit (count_active token_id st.sessions)
    then raises st too_many_sessions
    else returns (record st {
      sessions =
          insert new_id
            (record {
              token_id = token_id;
              status = active;
              pre_session_registry = snap.registry;
              pre_session_version = snap.version;
            })
            st.sessions;
    })

-- `requester_token_id is not None and uuid.UUID(str(rec.token_id)) != requester_token_id`
unfoldable pub is_foreign : Option String → Session → Bool
is_foreign none s = false
is_foreign (some requester) s = not (s.token_id == requester)

-- `save_session` on the row that its UPDATE returns
unfoldable pub save_found : String → Option String → Option Session → ChatState → Left
save_found session_id requester none st = raises st session_not_found
save_found session_id requester (some s) st =
    if is_foreign requester s
    then raises st session_not_found
    else returns (record st { sessions = erase session_id st.sessions })

unfoldable pub save_session : String → Option String → ChatState → Left
save_session session_id requester st =
    if has session_id st.running
    then raises st turn_in_flight
    else save_found session_id requester (lookup session_id st.sessions) st

-- The end of `cancel_session`, on what `save` returns or raises.
unfoldable pub cancel_saved :
    String → Session → ChatState → Result StaleVersion (Registries × ℕ) → Left
cancel_saved session_id s st (ok (registries, version)) =
    returns (record st { registries = registries; sessions = erase session_id st.sessions })
cancel_saved session_id s st (err e) =
    raises
      (record st { sessions = insert session_id (record s { status = cancelling }) st.sessions })
      (stale_staging e)

-- `meanwhile` is what others commit to the registries between the load of staging and the save: the
-- load takes no lock.
unfoldable pub cancel_found :
    ℕ → (Registries → Registries) → String → Option String → Option Session → ChatState → Left
cancel_found now meanwhile session_id requester none st = raises st session_not_found
cancel_found now meanwhile session_id requester (some s) st =
    if is_foreign requester s
    then raises st session_not_found
    else let current = load st.registries staging in
      let st' = record st { registries = meanwhile st.registries } in
      cancel_saved session_id s st' (
        save now st'.registries staging s.pre_session_registry (some current.version)
          (some "chat-cancel") (some ("cancel chat session " <> session_id)))

unfoldable pub cancel_session :
    ℕ → (Registries → Registries) → String → Option String → ChatState → Left
cancel_session now meanwhile session_id requester st =
    if has session_id st.running
    then raises st turn_in_flight
    else cancel_found now meanwhile session_id requester (lookup session_id st.sessions) st
