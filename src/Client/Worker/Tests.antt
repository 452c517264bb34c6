-- ===== src/Client/Worker/Tests.antt =====
-- Runs of the worker, and its properties at them.
use hardware_panel.Base.{ℕ, ◌≡◌, ◌≢◌, refl, true, false, List, [], ◌∷◌, ◌++◌, map}
use hardware_panel.Base.Int.{pos}
use hardware_panel.Types.{TelemetrySample}
use hardware_panel.Service.{Round, cancelled, timeout, popped}
use hardware_panel.Client.Worker.{
  Phase, Event, unready, reader, end_of_stream, own, message, thread_step, thread_steps, Stopper,
  Worker, new_worker, start, stop_step, Action, telemetry_steps, events_steps, stop_steps, run,
}
use hardware_panel.Client.Worker.Stop.{stopped, stop_quiet, stop_blocks}
use hardware_panel.Client.Worker.Ending.{closing, stop_returns}
use hardware_panel.Client.Worker.Stream.{
  Visit, not_ready, streamed, core_sample, loop_events, serve, samples_delivered,
}

-- Both threads find the channel not ready, and the flag is cleared while they sleep.
abbrev early_stop : List (Action ℕ ℕ)
early_stop =
    telemetry_steps unready
    ∷ events_steps unready
    ∷ stop_steps
    ∷ telemetry_steps own
    ∷ telemetry_steps own
    ∷ stop_steps
    ∷ events_steps own
    ∷ events_steps own
    ∷ stop_steps
    ∷ []

stop_quiet_example :
    run (early_stop ++ (telemetry_steps (message 1) ∷ [])) (start new_worker)
    ≡ run early_stop (start new_worker)
unfolding run start stop_step thread_step
stop_quiet_example = stop_quiet early_stop (telemetry_steps (message 1) ∷ []) refl

-- The events are read, and the service has none.
abbrev reading_events : List (Action ℕ ℕ)
reading_events = events_steps reader ∷ events_steps own ∷ []

abbrev patient_stop : List (Action ℕ ℕ)
patient_stop =
    stop_steps ∷ telemetry_steps own ∷ stop_steps ∷ events_steps own ∷ stop_steps ∷ stop_steps ∷ []

stop_blocks_example :
    (run (reading_events ++ patient_stop) (start new_worker)).0.stopper ≢ Stopper.returned
unfolding run start thread_step
stop_blocks_example = stop_blocks reading_events patient_stop refl refl

abbrev both_reading : Worker
both_reading = record {
  running = true;
  connected = true;
  telemetry = Phase.in_read;
  events = Phase.in_read;
  stopper = Stopper.idle;
}

abbrev reads_first : List (Event ℕ)
reads_first = message 7 ∷ own ∷ own ∷ own ∷ []

abbrev ends_first : List (Event ℕ)
ends_first = end_of_stream ∷ own ∷ own ∷ own ∷ []

stop_returns_example :
    (run (stop_steps ∷ closing reads_first ends_first) both_reading).0 ≡ stopped false false
stop_returns_example =
    stop_returns both_reading (message 7) own own own end_of_stream own own own refl refl refl refl

abbrev at : ℕ → TelemetrySample ℕ
at n = record { timestamp_ms = pos n; metrics = [] }

abbrev two_streams : List (Visit (Round (TelemetrySample ℕ)))
two_streams =
    not_ready
    ∷ streamed (popped (at 1) true ∷ timeout ∷ popped (at 2) true ∷ cancelled ∷ [])
    ∷ streamed (popped (at 5) true ∷ [])
    ∷ []

samples_delivered_example :
    map core_sample (thread_steps true (loop_events (map serve two_streams)) Phase.outer).1
    ≡ at 1 ∷ at 2 ∷ at 5 ∷ []
samples_delivered_example = samples_delivered two_streams refl
