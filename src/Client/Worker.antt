-- ===== src/Client/Worker.antt =====
-- apps/hwpanel-client/backend/client_worker.cpp: the two threads that read the streams of the
-- service, and `Start` and `Stop`. One step of a thread is one call or one test of `running_`; what
-- the channel and the stream answer is the step's event.
pub mod Stop
pub mod Ending
pub mod Stream
mod Tests
use hardware_panel.Base.{
  ℕ, Bool, true, false, List, [], ◌∷◌, ◌++◌, Option, none, some, if◌then◌else◌,
}

-- Where a thread of `TelemetryLoop` or `EventsLoop` stands: before the test of `running_` of the outer
-- loop or of the inner one, in `Read`, or in a sleep of so many milliseconds. `ended` is a thread that
-- has returned, or none.
pub data Phase : Type 0 where
  outer inner in_read ended : Phase
  sleeping : ℕ → Phase

-- What a step of a thread meets: the channel is null or not ready, no reader, a reader, a message that
-- was read, a stream that has ended, or nothing but the thread's own progress.
pub data Event (A : Type 0) : Type 0 where
  unready no_reader reader end_of_stream own : Event A
  message : A → Event A

module _ {A : Type 0} where
  -- The body of the outer loop up to the inner one, and the end of a call of `Read` with the argument
  -- of the signal. An event that does not belong there changes nothing.
  abbrev pub connect : Event A → Phase
  connect unready = Phase.sleeping 500
  connect no_reader = Phase.sleeping 1000
  connect reader = Phase.inner
  connect _ = Phase.outer

  abbrev pub read : Event A → Phase × List A
  read (message x) = (Phase.inner, x ∷ [])
  read end_of_stream = (Phase.sleeping 1000, [])
  read _ = (Phase.in_read, [])

  -- One step of the loop; the flag is `running_`.
  unfoldable pub thread_step : Bool → Event A → Phase → Phase × List A
  thread_step running e Phase.outer = (if running then connect e else Phase.ended, [])
  thread_step running e Phase.inner = (if running then Phase.in_read else Phase.sleeping 1000, [])
  thread_step running e Phase.in_read = read e
  thread_step running e (Phase.sleeping ms) = (Phase.outer, [])
  thread_step running e Phase.ended = (Phase.ended, [])

  -- The steps of one thread while `running_` keeps its value.
  unfoldable pub thread_steps : Bool → List (Event A) → Phase → Phase × List A
  unfolding thread_step
  thread_steps running [] p = (p, [])
  thread_steps running (e ∷ es) p =
      let (p', out) = thread_step running e p in
      let (p'', outs) = thread_steps running es p' in (p'', out ++ outs)

-- Where a call of `Stop` stands: not called, in the two joins, or returned.
pub data Stopper : Type 0 where
  idle joining_telemetry joining_events returned : Stopper

-- `connected` is whether the channel manager runs.
pub record Worker : Type 0 where
  pub running : Bool
  pub connected : Bool
  pub telemetry : Phase
  pub events : Phase
  pub stopper : Stopper

abbrev pub new_worker : Worker
new_worker = record {
  running = false;
  connected = false;
  telemetry = Phase.ended;
  events = Phase.ended;
  stopper = Stopper.idle;
}

-- `Start`.
unfoldable pub start : Worker → Worker
start w = if w.running then w else record w {
  running = true;
  connected = true;
  telemetry = Phase.outer;
  events = Phase.outer;
  stopper = Stopper.idle;
}

-- `joinable` threads are joined one after the other, once they have ended; then the manager stops.
abbrev pub has_ended : Phase → Bool
has_ended Phase.ended = true
has_ended _ = false

-- One step of `Stop`: the call, the end of a join, the end of the other and `manager_.Stop()`.
unfoldable pub stop_step : Worker → Worker
stop_step w = elim w.stopper [
  | Stopper.idle ↦
      if w.running
      then record w { running = false; stopper = Stopper.joining_telemetry }
      else record w { stopper = Stopper.returned }
  | Stopper.joining_telemetry ↦
      if has_ended w.telemetry then record w { stopper = Stopper.joining_events } else w
  | Stopper.joining_events ↦
      if has_ended w.events then record w { connected = false; stopper = Stopper.returned } else w
  | Stopper.returned ↦ w
]

-- A step of the worker: of one of the threads, or of `Stop`.
pub data Action (A B : Type 0) : Type 0 where
  telemetry_steps : Event A → Action A B
  events_steps : Event B → Action A B
  stop_steps : Action A B

-- The signals `SampleReceived` and `EventReceived`.
pub data Emitted (A B : Type 0) : Type 0 where
  sample_received : A → Emitted A B
  event_received : B → Emitted A B

module _ {A B : Type 0} where
  abbrev pub samples : List A → List (Emitted A B)
  samples [] = []
  samples (x ∷ xs) = sample_received x ∷ samples xs

  abbrev pub events : List B → List (Emitted A B)
  events [] = []
  events (x ∷ xs) = event_received x ∷ events xs

  unfoldable pub act : Action A B → Worker → Worker × List (Emitted A B)
  unfolding thread_step stop_step
  act (telemetry_steps e) w =
      let (p, out) = thread_step w.running e w.telemetry in
      (record w { telemetry = p }, samples out)
  act (events_steps e) w =
      let (p, out) = thread_step w.running e w.events in (record w { events = p }, events out)
  act stop_steps w = (stop_step w, [])

  unfoldable pub run : List (Action A B) → Worker → Worker × List (Emitted A B)
  unfolding act
  run [] w = (w, [])
  run (a ∷ acts) w = let (w', out) = act a w in let (w'', outs) = run acts w' in (w'', out ++ outs)
