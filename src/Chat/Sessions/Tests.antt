-- ===== src/Chat/Sessions/Tests.antt =====
-- A session over a staging registry with a pump, which is gone when the session is cancelled.
use lingyunzhi_os_backend.Base.{◌≡◌, ◌≢◌, ◌⊎◌, refl, [], none, some}
use lingyunzhi_os_backend.Dict.{lookup, has, insert}
use lingyunzhi_os_backend.Registry.Samples.{with_pump, stage}
use lingyunzhi_os_backend.Registry.Store.{Registries, initial, staging, load}
use lingyunzhi_os_backend.Chat.Sessions.{
  cancelling, stale_staging, ChatState, Left, count_active, is_full, create_session, cancel_session,
}
use lingyunzhi_os_backend.Chat.Sessions.Cancelling.{cancel-create_session}

-- Unfolding this unfolds the creation of a session.
unfoldable running : Unit {0}
unfolding lookup has insert count_active is_full create_session
running = tt

abbrev before : ChatState
before = record { registries = stage with_pump initial; sessions = []; running = [] }

abbrev during : ChatState
during = (create_session (some 3) "s" "t" before).state

-- What stages another registry under the cancel.
abbrev restaged : Registries → Registries
restaged t = stage with_pump t

cancel-create_session_example :
    (left : Left) × (cancel_session 9 restaged "s"
        (some "t")
        (record during { registries = initial })
      ≡ left)
    × ((((load (restaged initial) staging).version ≡ (load initial staging).version)
          × (left.raised ≡ none)
          × ((load left.state.registries staging).registry
              ≡ (load before.registries staging).registry)
          × (lookup "s" left.state.sessions ≡ none))
        ⊎ (((load (restaged initial) staging).version ≢ (load initial staging).version)
            × (left.raised
                ≡ some (
                    stale_staging (record {
                      env = staging;
                      expected_version = (load initial staging).version;
                      current_version = (load (restaged initial) staging).version;
                    })))
            × (left.state.registries ≡ restaged initial)
            × (lookup "s" left.state.sessions
                ≡ some (record {
                  token_id = "t";
                  status = cancelling;
                  pre_session_registry = (load before.registries staging).registry;
                  pre_session_version = (load before.registries staging).version;
                }))))
unfolding running
cancel-create_session_example =
    cancel-create_session (some 3) 9 restaged "s" "t" before initial refl refl
