-- ===== src/Bus.antt =====
-- libs/core/src/event_bus.cpp: notifications for the clients. The subscriber queues are those of
-- Fanout, with a capacity of 32; the clock of `PublishNow` is an argument.
pub mod Streams
use hardware_panel.Base.{ℕ, String, List, [], ◌∷◌, Option}
use hardware_panel.Base.Int.{ℤ}
use hardware_panel.Types.{EventMessage}
use hardware_panel.Fanout
use hardware_panel.Fanout.{Registry, Subscriber, Op}

abbrev pub subscriber_queue_capacity : ℕ
subscriber_queue_capacity = 32

abbrev pub Bus : Type 0
Bus = Registry EventMessage

unfoldable pub pop : Subscriber EventMessage → Subscriber EventMessage × Option EventMessage
pop = Fanout.pop

unfoldable pub close : Subscriber EventMessage → Subscriber EventMessage
close = Fanout.close

unfoldable pub publish : EventMessage → Bus → Bus
publish event bus = Fanout.publish subscriber_queue_capacity event bus

unfoldable pub subscribe : Bus → Bus × ℕ
subscribe bus = Fanout.subscribe bus

unfoldable pub publish_now : ℤ → String → String → String → Bus → Bus
unfolding publish
publish_now now level title message bus =
    publish (record { timestamp_ms = now; level = level; title = title; message = message }) bus

-- What the threads of the service do to the bus.
unfoldable pub run : Bus → List (Op EventMessage) → Bus × List (ℕ × EventMessage)
run = Fanout.run subscriber_queue_capacity
