-- ===== src/Chat/EventBus/Cleanup.antt =====
-- A turn after `_cleanup_after` of onto_platform/chat/sse.py.
use lingyunzhi_os_backend.Base.{String, ◌≡◌, refl, false, List, [], ◌∷◌, some, eq_refl}
use lingyunzhi_os_backend.Dict.{lookup, lookup-insert, lookup-erase}
use lingyunzhi_os_backend.Chat.EventBus.{
  Subscription, TurnState, Turns, turn_or_fresh, state, replay, subscribed, subscribe, if_no_subs,
  cleanup_found, cleanup,
}

module _ {ℓ} {Event : Type ℓ} where
  -- When a closed turn without subscribers has been cleaned up, a new subscriber of the turn stands
  -- in an open turn with an empty queue: it gets neither the events nor the sentinel.
  pub subscribe_after_cleanup :
      (turn_id : String) (turns : Turns Event) (st : TurnState Event)
      → lookup turn_id turns ≡ some st
      → st.subs ≡ []
      → lookup turn_id (subscribe turn_id (cleanup turn_id turns))
        ≡ some (record {
          subs = record { received = []; queue = [] } ∷ [];
          buffer = [];
          closed = false;
        })
  unfolding subscribe cleanup cleanup_found if_no_subs state turn_or_fresh subscribed replay
  subscribe_after_cleanup turn_id turns st there no_subs =
      rw (there, no_subs) (rw lookup-insert (rw lookup-erase (rw eq_refl refl)))

  -- A cleanup that finds a subscriber keeps every turn as it is.
  pub cleanup_with_subs :
      (turn_id : String) (turns : Turns Event) (st : TurnState Event) (sub : Subscription Event)
      (subs : List (Subscription Event))
      → lookup turn_id turns ≡ some st
      → st.subs ≡ sub ∷ subs
      → cleanup turn_id turns ≡ turns
  unfolding cleanup cleanup_found if_no_subs
  cleanup_with_subs turn_id turns st sub subs there some_subs = rw (there, some_subs) refl
