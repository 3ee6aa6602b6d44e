-- ===== src/Chat/EventBus/Tests.antt =====
-- A turn of the event bus with an early and a late subscriber, and the theorems at this turn.
use lingyunzhi_os_backend.Base.{ℕ, ◌≡◌, refl, true, false, [], ◌∷◌, ◌++◌, none, some}
use mathlib.Core.List.{Memᴰ}
use lingyunzhi_os_backend.Dict.{lookup, insert, erase}
use lingyunzhi_os_backend.Chat.EventBus.{
  Subscription, TurnState, Turns, turn_or_fresh, state, replay, subscribed, put_all, published,
  closed_turn, subscribe, publish, close_found, close, if_no_subs, cleanup_found, cleanup, get_at,
  leave_at, on_subs, get, leave, take_item,
}
use lingyunzhi_os_backend.Chat.EventBus.Delivery.{events}
use lingyunzhi_os_backend.Chat.EventBus.Reachable.{Reach, Reach-delivered}
use lingyunzhi_os_backend.Chat.EventBus.Cleanup.{subscribe_after_cleanup, cleanup_with_subs}

-- Unfolding this unfolds the event bus.
unfoldable running : Unit {0}
unfolding lookup insert erase turn_or_fresh state replay subscribed put_all published closed_turn
    subscribe publish close_found close if_no_subs cleanup_found cleanup get_at leave_at on_subs get
    leave take_item events
running = tt

abbrev run : Turns ℕ
run = get "t" 0 (subscribe "t" (close "t" (publish "t" 7 (subscribe "t" []))))

run-Reach : Reach run
run-Reach = Reach.then_get "t" 0 (
    Reach.then_subscribe "t"
      (Reach.then_close "t" (Reach.then_publish "t" 7 (Reach.then_subscribe "t" Reach.start))))

abbrev early : Subscription ℕ
early = record { received = some 7 ∷ []; queue = none ∷ [] }

abbrev late : Subscription ℕ
late = record { received = []; queue = some 7 ∷ none ∷ [] }

abbrev after : TurnState ℕ
after = record { subs = early ∷ late ∷ []; buffer = 7 ∷ []; closed = true }

run-after : lookup "t" run ≡ some after
unfolding running
run-after = refl

Reach-delivered_example : late.received ++ late.queue ≡ (events (7 ∷ []) ++ (none ∷ []))
unfolding running
Reach-delivered_example =
    Reach-delivered run-Reach "t" after run-after late (Memᴰ.tail (Memᴰ.head refl))

-- The turn when both have left.
abbrev left_alone : TurnState ℕ
left_alone = record { subs = []; buffer = 7 ∷ []; closed = true }

subscribe_after_cleanup_example :
    lookup "t" (subscribe "t" (cleanup "t" (leave "t" 0 (leave "t" 0 run))))
    ≡ some
        (record { subs = record { received = []; queue = [] } ∷ []; buffer = []; closed = false })
unfolding running
subscribe_after_cleanup_example =
    subscribe_after_cleanup "t" (leave "t" 0 (leave "t" 0 run)) left_alone refl refl

cleanup_with_subs_example : cleanup "t" run ≡ run
cleanup_with_subs_example = cleanup_with_subs "t" run after early (late ∷ []) run-after refl
