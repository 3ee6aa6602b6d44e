-- ===== src/Chat/EventBus/Delivery.antt =====
-- What the subscribers of a turn receive (onto_platform/chat/sse.py), whatever the order in which
-- events are published, subscribers come and go, and the turn is closed and cleaned up.
use lingyunzhi_os_backend.Base.{
  ℕ, zero, suc, ◌≡◌, refl, ap, sym, ◌∙◌, List, [], ◌∷◌, ◌++◌, none, some, if◌then◌else◌,
}
use mathlib.Core.List.{Memᴰ}
use lingyunzhi_os_backend.Chat.EventBus.{
  Item, Subscription, TurnState, replay, put_all, take_item, get_at, leave_at,
}

module _ {ℓ} {Event : Type ℓ} where
  -- What a subscriber of a turn gets in all: every event and, when the turn is closed, the sentinel.
  unfoldable pub events : List Event → List (Item Event)
  events [] = []
  events (ev ∷ evs) = some ev ∷ events evs

  unfoldable pub contents : TurnState Event → List (Item Event)
  contents st = if st.closed then events st.buffer ++ (none ∷ []) else events st.buffer

  -- What a subscriber took and what is in its queue are the items given.
  abbrev pub Holds : List (Item Event) → Subscription Event → Type ℓ
  Holds items sub = (sub.received ++ sub.queue) ≡ items

  abbrev pub AllHold : List (Item Event) → List (Subscription Event) → Type ℓ
  AllHold items subs = (sub : Subscription Event) → Memᴰ sub subs → Holds items sub

  append_assoc : (xs ys zs : List (Item Event)) → ((xs ++ ys) ++ zs) ≡ (xs ++ (ys ++ zs))
  append_assoc [] ys zs = refl
  append_assoc (x ∷ xs) ys zs = ap (λ r. x ∷ r) (append_assoc xs ys zs)

  append-nil : (xs : List (Item Event)) → (xs ++ []) ≡ xs
  append-nil [] = refl
  append-nil (x ∷ xs) = ap (λ r. x ∷ r) (append-nil xs)

  pub replay-events :
      (queue : List (Item Event)) (evs : List Event) → replay queue evs ≡ queue ++ events evs
  unfolding replay events
  replay-events queue [] = sym (append-nil queue)
  replay-events queue (ev ∷ evs) =
      replay-events (queue ++ (some ev ∷ [])) evs ∙ append_assoc queue (some ev ∷ []) (events evs)

  pub events-append :
      (evs : List Event) (ev : Event) → events (evs ++ (ev ∷ [])) ≡ events evs ++ (some ev ∷ [])
  unfolding events
  events-append [] ev = refl
  events-append (e ∷ evs) ev = ap (λ r. some e ∷ r) (events-append evs ev)

  pub put_all-AllHold :
      (items : List (Item Event)) (item : Item Event) (subs : List (Subscription Event))
      → AllHold items subs
      → AllHold (items ++ (item ∷ [])) (put_all item subs)
  unfolding put_all
  put_all-AllHold items item [] all sub m = elim m [ ]
  put_all-AllHold items item (s ∷ subs) all sub (Memᴰ.head e) = rw e (
      sym (append_assoc s.received s.queue (item ∷ []))
      ∙ ap (λ r. r ++ (item ∷ [])) (all s (Memᴰ.head refl)))
  put_all-AllHold items item (s ∷ subs) all sub (Memᴰ.tail m) =
      put_all-AllHold items item subs (λ t n. all t (Memᴰ.tail n)) sub m

  pub snoc-AllHold :
      (items : List (Item Event)) (subs : List (Subscription Event)) (new : Subscription Event)
      → AllHold items subs
      → Holds items new
      → AllHold items (subs ++ (new ∷ []))
  snoc-AllHold items [] new all h sub (Memᴰ.head e) = rw e h
  snoc-AllHold items [] new all h sub (Memᴰ.tail m) = elim m [ ]
  snoc-AllHold items (s ∷ subs) new all h sub (Memᴰ.head e) = all sub (Memᴰ.head e)
  snoc-AllHold items (s ∷ subs) new all h sub (Memᴰ.tail m) =
      snoc-AllHold items subs new (λ t n. all t (Memᴰ.tail n)) h sub m

  take_item-Holds :
      (items queue : List (Item Event)) (sub : Subscription Event)
      → (sub.received ++ queue) ≡ items
      → sub.queue ≡ queue
      → Holds items (take_item queue sub)
  unfolding take_item
  take_item-Holds items [] sub h e = rw e h
  take_item-Holds items (i ∷ queue) sub h e = append_assoc sub.received (i ∷ []) queue ∙ h

  pub get_at-AllHold :
      (items : List (Item Event)) (i : ℕ) (subs : List (Subscription Event))
      → AllHold items subs
      → AllHold items (get_at i subs)
  unfolding get_at
  get_at-AllHold items i [] all sub m = elim m [ ]
  get_at-AllHold items zero (s ∷ subs) all sub (Memᴰ.head e) =
      rw e (take_item-Holds items s.queue s (all s (Memᴰ.head refl)) refl)
  get_at-AllHold items zero (s ∷ subs) all sub (Memᴰ.tail m) = all sub (Memᴰ.tail m)
  get_at-AllHold items (suc i) (s ∷ subs) all sub (Memᴰ.head e) = all sub (Memᴰ.head e)
  get_at-AllHold items (suc i) (s ∷ subs) all sub (Memᴰ.tail m) =
      get_at-AllHold items i subs (λ t n. all t (Memᴰ.tail n)) sub m

  pub leave_at-AllHold :
      (items : List (Item Event)) (i : ℕ) (subs : List (Subscription Event))
      → AllHold items subs
      → AllHold items (leave_at i subs)
  unfolding leave_at
  leave_at-AllHold items i [] all sub m = elim m [ ]
  leave_at-AllHold items zero (s ∷ subs) all sub m = all sub (Memᴰ.tail m)
  leave_at-AllHold items (suc i) (s ∷ subs) all sub (Memᴰ.head e) = all sub (Memᴰ.head e)
  leave_at-AllHold items (suc i) (s ∷ subs) all sub (Memᴰ.tail m) =
      leave_at-AllHold items i subs (λ t n. all t (Memᴰ.tail n)) sub m
