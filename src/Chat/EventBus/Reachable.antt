-- ===== src/Chat/EventBus/Reachable.antt =====
-- The states that the event bus of onto_platform/chat/sse.py reaches: any calls of its methods, with
-- the items that consumers take and the consumers that leave, in any order and on any turns.
use lingyunzhi_os_backend.Base.{
  ℕ, String, ◌≡◌, refl, sym, inl, inr, Bool, true, false, List, [], ◌∷◌, ◌++◌, Option, none, some,
  Bool-cases, Option-cases, if◌then◌else◌, ◌==◌,
}
use mathlib.Core.List.{Memᴰ}
use lingyunzhi_os_backend.Dict.{lookup, insert, erase, lookup-insert, lookup-erase}
use mathlib.Core.Option.{some-injective}
use mathlib.Core.Path.{◌∙◌, subst}
use lingyunzhi_os_backend.Chat.EventBus.{
  Item, Subscription, TurnState, Turns, turn_or_fresh, state, subscribed, published, closed_turn,
  subscribe, publish, close_found, close, if_no_subs, cleanup_found, cleanup, get_at, leave_at,
  on_subs, get, leave,
}
use lingyunzhi_os_backend.Chat.EventBus.Delivery.{
  events, contents, AllHold, replay-events, events-append, put_all-AllHold, snoc-AllHold,
  get_at-AllHold, leave_at-AllHold,
}

-- What a run of the bus consists of.
pub data Reach {ℓ} {Event : Type ℓ} : Turns Event → Type ℓ where
  start : Reach []
  then_subscribe :
      (turn_id : String) {turns : Turns Event} → Reach turns → Reach (subscribe turn_id turns)
  then_publish :
      (turn_id : String) (ev : Event) {turns : Turns Event}
      → Reach turns
      → Reach (publish turn_id ev turns)
  then_close : (turn_id : String) {turns : Turns Event} → Reach turns → Reach (close turn_id turns)
  then_cleanup :
      (turn_id : String) {turns : Turns Event} → Reach turns → Reach (cleanup turn_id turns)
  then_get :
      (turn_id : String) (i : ℕ) {turns : Turns Event} → Reach turns → Reach (get turn_id i turns)
  then_leave :
      (turn_id : String) (i : ℕ) {turns : Turns Event} → Reach turns → Reach (leave turn_id i turns)

module _ {ℓ} {Event : Type ℓ} where
  abbrev Complete : TurnState Event → Type ℓ
  Complete st = AllHold (contents st) st.subs

  abbrev AllComplete : Turns Event → Type ℓ
  AllComplete turns =
      (turn_id : String) (st : TurnState Event) → lookup turn_id turns ≡ some st → Complete st

  subscribed-Complete : (st : TurnState Event) → Complete st → Complete (subscribed st)
  unfolding subscribed contents
  subscribed-Complete st all = elim (Bool-cases st.closed) [
    | inl closed ↦ snoc-AllHold (contents st) st.subs _ all (rw (closed, replay-events) refl)
    | inr opened ↦ snoc-AllHold (contents st) st.subs _ all (rw (opened, replay-events) refl)
  ]

  abbrev turn : List (Subscription Event) → List Event → Bool → TurnState Event
  turn subs buffer closed = record { subs = subs; buffer = buffer; closed = closed }

  published-Complete :
      (ev : Event) (subs : List (Subscription Event)) (buffer : List Event) (closed : Bool)
      → Complete (turn subs buffer closed)
      → Complete (published ev (turn subs buffer closed))
  unfolding published contents
  published-Complete ev subs buffer true all = all
  published-Complete ev subs buffer false all =
      rw events-append (put_all-AllHold (events buffer) (some ev) subs all)

  closed_turn-Complete :
      (subs : List (Subscription Event)) (buffer : List Event) (closed : Bool)
      → Complete (turn subs buffer closed)
      → Complete (closed_turn (turn subs buffer closed))
  unfolding closed_turn contents
  closed_turn-Complete subs buffer true all = all
  closed_turn-Complete subs buffer false all = put_all-AllHold (events buffer) none subs all

  insert-AllComplete :
      (turn_id : String) (st : TurnState Event) (turns : Turns Event)
      → AllComplete turns
      → Complete st
      → AllComplete (insert turn_id st turns)
  insert-AllComplete turn_id st turns all new j found there = elim (Bool-cases (turn_id == j)) [
    | inl same ↦
        subst Complete
          (some-injective st found (sym (lookup-insert j turn_id st turns ∙ rw same refl) ∙ there))
          new
    | inr other ↦ all j found (sym (lookup-insert j turn_id st turns ∙ rw other refl) ∙ there)
  ]

  none-some : {st : TurnState Event} → ◌≡◌ {A = Option (TurnState Event)} none (some st) → ⊥
  none-some h = cc

  erase-AllComplete :
      (turn_id : String) (turns : Turns Event)
      → AllComplete turns
      → AllComplete (erase turn_id turns)
  erase-AllComplete turn_id turns all j found there = elim (Bool-cases (turn_id == j)) [
    | inl same ↦ absurd (none-some (sym (lookup-erase j turn_id turns ∙ rw same refl) ∙ there))
    | inr other ↦ all j found (sym (lookup-erase j turn_id turns ∙ rw other refl) ∙ there)
  ]

  -- A turn that is looked up is complete, also the fresh one.
  state-Complete :
      (turn_id : String) (turns : Turns Event) → AllComplete turns → Complete (state turn_id turns)
  unfolding state turn_or_fresh
  state-Complete turn_id turns all = elim (Option-cases (lookup turn_id turns)) [
    | inl absent ↦ rw absent (λ sub m. elim m [ ])
    | inr (st, there) ↦ rw there (all turn_id st there)
  ]

  on_subs-AllComplete :
      (f : List (Subscription Event) → List (Subscription Event))
      → ((items : List (Item Event)) (subs : List (Subscription Event))
          → AllHold items subs
          → AllHold items (f subs))
      → (turn_id : String) (turns : Turns Event) → AllComplete turns
      → AllComplete (on_subs f turn_id (lookup turn_id turns) turns)
  unfolding on_subs contents
  on_subs-AllComplete f kept turn_id turns all = elim (Option-cases (lookup turn_id turns)) [
    | inl absent ↦ rw absent all
    | inr (st, there) ↦ rw there (
        insert-AllComplete turn_id (record st { subs = f st.subs }) turns all
          (kept (contents st) st.subs (all turn_id st there)))
  ]

  close-AllComplete :
      (turn_id : String) (turns : Turns Event)
      → AllComplete turns
      → AllComplete (close turn_id turns)
  unfolding close close_found
  close-AllComplete turn_id turns all = elim (Option-cases (lookup turn_id turns)) [
    | inl absent ↦ rw absent all
    | inr (st, there) ↦ rw there (
        insert-AllComplete turn_id (closed_turn st) turns all
          (closed_turn-Complete st.subs st.buffer st.closed (all turn_id st there)))
  ]

  if_no_subs-AllComplete :
      (subs : List (Subscription Event)) (dropped turns : Turns Event)
      → AllComplete dropped
      → AllComplete turns
      → AllComplete (if_no_subs subs dropped turns)
  unfolding if_no_subs
  if_no_subs-AllComplete [] dropped turns without same = without
  if_no_subs-AllComplete (s ∷ subs) dropped turns without same = same

  cleanup-AllComplete :
      (turn_id : String) (turns : Turns Event)
      → AllComplete turns
      → AllComplete (cleanup turn_id turns)
  unfolding cleanup cleanup_found
  cleanup-AllComplete turn_id turns all = elim (Option-cases (lookup turn_id turns)) [
    | inl absent ↦ rw absent all
    | inr (st, there) ↦ rw there (
        if_no_subs-AllComplete st.subs (erase turn_id turns) turns
          (erase-AllComplete turn_id turns all) all)
  ]

  Reach-AllComplete : {turns : Turns Event} → Reach turns → AllComplete turns
  unfolding subscribe publish get leave lookup
  Reach-AllComplete start = λ turn_id st there. absurd (none-some there)
  Reach-AllComplete (then_subscribe turn_id {turns} r) =
      let all = Reach-AllComplete r in
      insert-AllComplete turn_id (subscribed (state turn_id turns)) turns all
        (subscribed-Complete (state turn_id turns) (state-Complete turn_id turns all))
  Reach-AllComplete (then_publish turn_id ev {turns} r) =
      let all = Reach-AllComplete r in
      let st = state turn_id turns in
      insert-AllComplete turn_id (published ev st) turns all
        (published-Complete ev st.subs st.buffer st.closed (state-Complete turn_id turns all))
  Reach-AllComplete (then_close turn_id {turns} r) =
      close-AllComplete turn_id turns (Reach-AllComplete r)
  Reach-AllComplete (then_cleanup turn_id {turns} r) =
      cleanup-AllComplete turn_id turns (Reach-AllComplete r)
  Reach-AllComplete (then_get turn_id i {turns} r) =
      on_subs-AllComplete (get_at i) (λ items. get_at-AllHold items i) turn_id turns
        (Reach-AllComplete r)
  Reach-AllComplete (then_leave turn_id i {turns} r) =
      on_subs-AllComplete (leave_at i) (λ items. leave_at-AllHold items i) turn_id turns
        (Reach-AllComplete r)

  -- In every state that the bus reaches, what a subscriber of a turn took and what waits in its queue
  -- are the events in the buffer of the turn in order, whenever it subscribed, and behind them the
  -- sentinel once the turn is closed and only then.
  pub Reach-delivered :
      {turns : Turns Event}
      → Reach turns
      → (turn_id : String) (st : TurnState Event) → lookup turn_id turns ≡ some st
      → (sub : Subscription Event) → Memᴰ sub st.subs
      → sub.received ++ sub.queue
        ≡ (if st.closed then events st.buffer ++ (none ∷ []) else events st.buffer)
  unfolding contents
  Reach-delivered r turn_id st there sub m = Reach-AllComplete r turn_id st there sub m
