-- ===== src/Chat/EventBus.antt =====
-- `EventBus` of onto_platform/chat/sse.py. Its methods wait for nothing but unbounded queues, which
-- never block, so each runs in one step; between them the consumer of a subscription takes items
-- and leaves. `received` is no field of the code: it records what a consumer took.
pub mod Delivery
pub mod Reachable
pub mod Cleanup
mod Tests
use lingyunzhi_os_backend.Base.{
  ℕ, zero, suc, String, Bool, true, false, List, [], ◌∷◌, ◌++◌, Option, none, some, if◌then◌else◌,
}
use lingyunzhi_os_backend.Dict.{Dict, lookup, insert, erase}

module _ {ℓ} (Event : Type ℓ) where
  -- An item of a queue, where `none` is the sentinel.
  abbrev pub Item : Type ℓ
  Item = Option Event

  -- `_Subscription`
  pub record Subscription : Type ℓ where
    pub received : List Item
    pub queue : List Item

  -- `_TurnState`
  pub record TurnState : Type ℓ where
    pub subs : List Subscription
    pub buffer : List Event
    pub closed : Bool

  -- `EventBus._turns`
  abbrev pub Turns : Type ℓ
  Turns = Dict TurnState

module _ {ℓ} {Event : Type ℓ} where
  abbrev pub fresh : TurnState Event
  fresh = record { subs = []; buffer = []; closed = false }

  -- `_state`, whose `setdefault` stores what it returns; here the caller stores it.
  unfoldable pub turn_or_fresh : Option (TurnState Event) → TurnState Event
  turn_or_fresh none = fresh
  turn_or_fresh (some st) = st

  unfoldable pub state : String → Turns Event → TurnState Event
  state turn_id turns = turn_or_fresh (lookup turn_id turns)

  -- The loop that puts every buffered event into a queue.
  unfoldable pub replay : List (Item Event) → List Event → List (Item Event)
  replay queue [] = queue
  replay queue (ev ∷ evs) = replay (queue ++ (some ev ∷ [])) evs

  -- `subscribe` up to its first `get`
  unfoldable pub subscribed : TurnState Event → TurnState Event
  subscribed st =
      let queue = replay [] st.buffer in
      record st {
        subs =
            st.subs
            ++ (record { received = []; queue = if st.closed then queue ++ (none ∷ []) else queue }
                ∷ []);
      }

  -- `for sub in list(state.subs): await sub.queue.put(item)`
  unfoldable pub put_all : Item Event → List (Subscription Event) → List (Subscription Event)
  put_all item [] = []
  put_all item (sub ∷ subs) = record sub { queue = sub.queue ++ (item ∷ []) } ∷ put_all item subs

  unfoldable pub published : Event → TurnState Event → TurnState Event
  published ev st =
      if st.closed
      then st
      else record st { buffer = st.buffer ++ (ev ∷ []); subs = put_all (some ev) st.subs }

  unfoldable pub closed_turn : TurnState Event → TurnState Event
  closed_turn st =
      if st.closed then st else record st { closed = true; subs = put_all none st.subs }

  unfoldable pub subscribe : String → Turns Event → Turns Event
  subscribe turn_id turns = insert turn_id (subscribed (state turn_id turns)) turns

  unfoldable pub publish : String → Event → Turns Event → Turns Event
  publish turn_id ev turns = insert turn_id (published ev (state turn_id turns)) turns

  unfoldable pub close_found : String → Option (TurnState Event) → Turns Event → Turns Event
  close_found turn_id none turns = turns
  close_found turn_id (some st) turns = insert turn_id (closed_turn st) turns

  unfoldable pub close : String → Turns Event → Turns Event
  close turn_id turns = close_found turn_id (lookup turn_id turns) turns

  -- `_cleanup_after`, once its delay is over
  unfoldable pub if_no_subs : List (Subscription Event) → Turns Event → Turns Event → Turns Event
  if_no_subs [] dropped turns = dropped
  if_no_subs (sub ∷ subs) dropped turns = turns

  unfoldable pub cleanup_found : String → Option (TurnState Event) → Turns Event → Turns Event
  cleanup_found turn_id none turns = turns
  cleanup_found turn_id (some st) turns = if_no_subs st.subs (erase turn_id turns) turns

  unfoldable pub cleanup : String → Turns Event → Turns Event
  cleanup turn_id turns = cleanup_found turn_id (lookup turn_id turns) turns

  -- `await sub.queue.get()` of one consumer; on an empty queue it goes on waiting.
  unfoldable pub take_item : List (Item Event) → Subscription Event → Subscription Event
  take_item [] sub = sub
  take_item (item ∷ items) sub = record sub {
    received = sub.received ++ (item ∷ []);
    queue = items;
  }

  -- The consumer at a position takes an item.
  unfoldable pub get_at : ℕ → List (Subscription Event) → List (Subscription Event)
  get_at i [] = []
  get_at zero (sub ∷ subs) = take_item sub.queue sub ∷ subs
  get_at (suc i) (sub ∷ subs) = sub ∷ get_at i subs

  -- The consumer at a position leaves, after the sentinel or before: the `finally` of `subscribe`.
  unfoldable pub leave_at : ℕ → List (Subscription Event) → List (Subscription Event)
  leave_at i [] = []
  leave_at zero (sub ∷ subs) = subs
  leave_at (suc i) (sub ∷ subs) = sub ∷ leave_at i subs

  unfoldable pub on_subs :
      (List (Subscription Event) → List (Subscription Event))
      → String
      → Option (TurnState Event)
      → Turns Event
      → Turns Event
  on_subs f turn_id none turns = turns
  on_subs f turn_id (some st) turns = insert turn_id (record st { subs = f st.subs }) turns

  unfoldable pub get : String → ℕ → Turns Event → Turns Event
  get turn_id i turns = on_subs (get_at i) turn_id (lookup turn_id turns) turns

  unfoldable pub leave : String → ℕ → Turns Event → Turns Event
  leave turn_id i turns = on_subs (leave_at i) turn_id (lookup turn_id turns) turns
