-- ===== src/System.antt =====
-- One sample from the collectors to the charts of a client: the tick of plugins/collectors/pipeline.cpp
-- with the callback that apps/hwpanel-service/service_host.cpp gives it, the hub, one streaming call
-- of apps/hwpanel-service/grpc/telemetry_service_impl.cpp, the telemetry thread of
-- apps/hwpanel-client/backend/client_worker.cpp and the series of telemetry_store.cpp. The stream of
-- gRPC between the two processes is a queue.
pub mod Rounds
pub mod Flow
pub mod Shown
pub mod Charts
mod Tests
use hardware_panel.Base.{ℕ, suc, Bool, true, false, List, [], ◌∷◌, ◌++◌, Option, none, some, map}
use hardware_panel.Base.Int.{ℤ}
use hardware_panel.Types.{TelemetrySample}
use hardware_panel.Pipeline.{Collector, tick}
use hardware_panel.Fanout
use hardware_panel.Fanout.{Op, pop_at}
use hardware_panel.Hub
use hardware_panel.Hub.{Hub}
use hardware_panel.Service.{subscribe_loop, decimate_of, Round, popped, timeout}
use hardware_panel.Client.{Double, TelemetryStore, new_store, handle_sample}
use hardware_panel.Client.Worker.{Phase, Event, own, message, thread_step}
use hardware_panel.Client.Worker.Stream.{one_hertz, core_sample}

-- What happens next: a tick at a time, a round of the loop of the streaming call in which the client
-- has not cancelled, a step of the client's thread, or a step of another client's call.
pub data Move (A : Type 0) : Type 0 where
  ticks : ℤ → Move A
  polls client_steps : Move A
  others : Op A → Move A

module _ (double : Double) (S : Type 0) where
  open double use {V}

  -- `call` is the subscriber of the streaming call and `index` its counter; `wire` holds the messages
  -- that were written and not read; `phase` is where the thread of the client is.
  pub record System : Type 0 where
    pub machine : S
    pub hub : Hub V
    pub call : ℕ
    pub index : ℕ
    pub wire : List (TelemetrySample V)
    pub phase : Phase
    pub store : TelemetryStore double

module _ {A : Type 0} where
  -- `Pop` as the loop sees it; the write succeeds.
  abbrev pub round_of : Option (A) → Round (A)
  round_of none = timeout
  round_of (some sample) = popped sample true

  abbrev pub counted : Option (A) → ℕ → ℕ
  counted none index = index
  counted (some sample) index = suc index

module _ {double : Double} where
  open double use {V}

  -- The signals of the thread are handled in their order.
  abbrev pub handle_all : List (TelemetrySample V) → TelemetryStore double → TelemetryStore double
  handle_all [] t = t
  handle_all (x ∷ xs) t = handle_all xs (handle_sample double x t)

module _ {double : Double} {S : Type 0} where
  open double use {V}

  -- The client asks for 1.0 Hz and all metrics.
  unfoldable pub poll : System double S → System double S
  poll s =
      let (r, x) = pop_at s.hub.registry s.call in
      record s {
        hub = record s.hub { registry = r };
        index = counted x s.index;
        wire = s.wire ++ subscribe_loop [] (decimate_of one_hertz) s.index (round_of x ∷ []);
      }

  abbrev pub thread_at :
      Event (TelemetrySample V) → List (TelemetrySample V) → System double S → System double S
  thread_at e wire s =
      let (phase, out) = thread_step true e s.phase in
      record s { wire = wire; phase = phase; store = handle_all (map core_sample out) s.store }

  -- `Read` returns when there is a message.
  abbrev pub client_step : Phase → List (TelemetrySample V) → System double S → System double S
  client_step Phase.in_read [] s = s
  client_step Phase.in_read (m ∷ wire) s = thread_at (message m) wire s
  client_step Phase.outer wire s = s
  client_step Phase.inner wire s = thread_at own wire s
  client_step (Phase.sleeping ms) wire s = s
  client_step Phase.ended wire s = s

module _ {double : Double} {S : Type 0} (collectors : List (Collector S double.V)) where
  open double use {V}

  unfoldable pub step : System double S → Move (TelemetrySample V) → System double S
  unfolding poll thread_step
  step s (ticks now) =
      let (sample, machine) = tick now collectors s.machine in
      record s { machine = machine; hub = Hub.publish sample s.hub }
  step s polls = poll s
  step s client_steps = client_step s.phase s.wire s
  step s (others o) = record s { hub = (Hub.step s.hub o).0 }

  unfoldable pub run : System double S → List (Move (TelemetrySample V)) → System double S
  unfolding step
  run s [] = s
  run s (m ∷ ms) = run (step s m) ms

module _ {S V : Type 0} (collectors : List (Collector S V)) where
  -- The samples of the ticks.
  unfoldable pub sampled : S → List (Move (TelemetrySample V)) → List (TelemetrySample V)
  sampled s [] = []
  sampled s (ticks now ∷ ms) = let (sample, s') = tick now collectors s in sample ∷ sampled s' ms
  sampled s (polls ∷ ms) = sampled s ms
  sampled s (client_steps ∷ ms) = sampled s ms
  sampled s (others o ∷ ms) = sampled s ms

-- A streaming call that a client has just opened at a hub, and a client that shows nothing yet.
unfoldable pub opened : {double : Double} {S : Type 0} → S → Hub double.V → System double S
opened machine hub =
    let (hub', call) = Hub.subscribe hub in
    record {
      machine = machine;
      hub = hub';
      call = call;
      index = 0;
      wire = [];
      phase = Phase.inner;
      store = new_store _;
    }
