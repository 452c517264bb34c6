-- ===== src/Bus/Streams.antt =====
-- What a client that watches the events is promised.
use mathlib.Core.List.{Sublistᴰ}
use hardware_panel.Base.{
  ℕ, ◌≤◌, ◌<◌, ◌≡◌, ◌++◌, ◌∷◌, [], String, true, false, some, leb, List, arith, length, get_elem?,
  refl,
}
use hardware_panel.Base.Int.{ℤ}
use hardware_panel.Types.{EventMessage}
use hardware_panel.Fanout
use hardware_panel.Fanout.{Cell, Op, accept}
use hardware_panel.Fanout.Delivery.{IsWellFormed, publish_isolated}
use hardware_panel.Fanout.Stream.{published, received, waiting}
use hardware_panel.Fanout.Promises.{in_order, queue_bounded}
use hardware_panel.Bus.{Bus, subscriber_queue_capacity, publish_now, run}

-- In any interleaving of publications and subscriber activity a watcher receives the published events
-- in order and none twice, and never more than 32 events wait for it.
watch-run :
    (os : List (Op EventMessage)) (i : ℕ)
    → let (bus, out) = run Fanout.empty os in
      let queue = waiting (get_elem? bus.objects i) in
      Sublistᴰ (received i out ++ queue) (published os) × (length queue ≤ 32)
unfolding run
watch-run os i = (
  in_order subscriber_queue_capacity os i,
  queue_bounded subscriber_queue_capacity os i (omega arith),
)

accept-room :
    (e : EventMessage) (q : List EventMessage)
    → length q < 32
    → (accept 32 e (record { queue = q; closed = false })).queue ≡ q ++ e ∷ []
unfolding accept
accept-room e q room = let below : leb 32 (length q) ≡ false = ground arith in rw below refl

-- `PublishNow` puts its event behind those that wait for a watcher with fewer than 32 of them.
pub publish_now-waiting :
    (now : ℤ) (level title message : String) (bus : Bus) (i : ℕ) (q : List EventMessage)
    → IsWellFormed bus
    → get_elem? bus.objects i
      ≡ some (record { owned = true; sub = record { queue = q; closed = false } })
    → length q < 32
    → waiting (get_elem? (publish_now now level title message bus).objects i)
      ≡ q ++ record { timestamp_ms = now; level = level; title = title; message = message } ∷ []
unfolding publish_now
publish_now-waiting now level title message bus i q formed watched room =
    let e : EventMessage = record {
      timestamp_ms = now;
      level = level;
      title = title;
      message = message;
    } in
    rw (publish_isolated 32 e bus i _ formed watched) (accept-room e q room)
