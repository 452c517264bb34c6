-- ===== src/Client/Worker/Stream.antt =====
-- The samples and events on their way from a streaming call of the service to the client's signals.
use hardware_panel.Base.{
  ◌≡◌, refl, ap, ap₂, ◌∙◌, Bool, true, false, List, [], ◌∷◌, ◌++◌, map, arith, if◌then◌else◌,
}
use hardware_panel.Base.Int.{pos}
use hardware_panel.Types.{MetricSample, TelemetrySample, EventMessage}
use hardware_panel.Service.{IntervalHz, decimate_of, Round, subscribe}
use hardware_panel.Service.Streaming.{
  values, all_written, one_in, subscribe_decimates, map-unfiltered,
}
use hardware_panel.Client.Worker.{
  Phase, Event, unready, no_reader, reader, end_of_stream, own, message, thread_step, thread_steps,
}

-- `request.set_interval_hz(1.0)`: not below 1, and its inverse rounds to 1.
abbrev pub one_hertz : IntervalHz
one_hertz = record { positive = true; below_one = false; rounded_inverse = pos 1 }

-- The loops over the fields of a message.
unfoldable pub core_metrics : {V : Type 0} → List (MetricSample V) → List (MetricSample V)
core_metrics [] = []
core_metrics (m ∷ ms) =
    record { metric_id = m.metric_id; value = m.value; unit = m.unit } ∷ core_metrics ms

unfoldable pub core_sample : {V : Type 0} → TelemetrySample V → TelemetrySample V
unfolding core_metrics
core_sample m = record { timestamp_ms = m.timestamp_ms; metrics = core_metrics m.metrics }

unfoldable pub core_event : EventMessage → EventMessage
core_event m = record {
  timestamp_ms = m.timestamp_ms;
  level = m.level;
  title = m.title;
  message = m.message;
}

-- One round of the outer loop while the client runs: the channel is not ready, there is no reader, or
-- the stream sends these messages and ends.
pub data Visit (A : Type 0) : Type 0 where
  not_ready not_opened : Visit A
  streamed : List A → Visit A

module _ {A : Type 0} where
  -- The events of the thread's steps.
  abbrev reading : List A → List (Event A)
  reading [] = own ∷ end_of_stream ∷ own ∷ []
  reading (x ∷ xs) = own ∷ message x ∷ reading xs

  abbrev visit_events : Visit A → List (Event A)
  visit_events not_ready = unready ∷ own ∷ []
  visit_events not_opened = no_reader ∷ own ∷ []
  visit_events (streamed xs) = reader ∷ reading xs

  abbrev pub loop_events : List (Visit A) → List (Event A)
  loop_events [] = []
  loop_events (v ∷ vs) = visit_events v ++ loop_events vs

  abbrev pub received : Visit A → List A
  received (streamed xs) = xs
  received _ = []

  abbrev pub all_received : List (Visit A) → List A
  all_received [] = []
  all_received (v ∷ vs) = received v ++ all_received vs

  thread_steps-reading :
      (xs : List A) (es : List (Event A))
      → thread_steps true (reading xs ++ es) Phase.inner
        ≡ ((thread_steps true es Phase.outer).0, xs ++ (thread_steps true es Phase.outer).1)
  unfolding thread_steps thread_step
  thread_steps-reading [] es = refl
  thread_steps-reading (x ∷ xs) es = rw (thread_steps-reading xs es) refl

  -- A thread that runs and is at its outer loop emits the messages of all the streams that it gets to
  -- read, in order, one signal for each, and is at its outer loop again.
  pub thread_steps-loop_events :
      (vs : List (Visit A))
      → thread_steps true (loop_events vs) Phase.outer ≡ (Phase.outer, all_received vs)
  unfolding thread_steps thread_step
  thread_steps-loop_events [] = refl
  thread_steps-loop_events (not_ready ∷ vs) = rw (thread_steps-loop_events vs) refl
  thread_steps-loop_events (not_opened ∷ vs) = rw (thread_steps-loop_events vs) refl
  thread_steps-loop_events (streamed xs ∷ vs) =
      thread_steps-reading xs (loop_events vs) ∙ rw (thread_steps-loop_events vs) refl

module _ {V : Type 0} where
  -- What the service does with a visit whose stream meets these rounds.
  abbrev pub serve : Visit (Round (TelemetrySample V)) → Visit (TelemetrySample V)
  serve not_ready = not_ready
  serve not_opened = not_opened
  serve (streamed rounds) = streamed (subscribe [] one_hertz rounds)

  abbrev pub visit_written : Visit (Round (TelemetrySample V)) → Bool
  visit_written (streamed rounds) = all_written rounds
  visit_written _ = true

  abbrev pub visits_written : List (Visit (Round (TelemetrySample V))) → Bool
  visits_written [] = true
  visits_written (v ∷ vs) = let rest = visits_written vs in if visit_written v then rest else false

  abbrev pub all_popped : List (Visit (Round (TelemetrySample V))) → List (TelemetrySample V)
  all_popped [] = []
  all_popped (streamed rounds ∷ vs) = values rounds ++ all_popped vs
  all_popped (_ ∷ vs) = all_popped vs

  core_metrics-id : (ms : List (MetricSample V)) → core_metrics ms ≡ ms
  unfolding core_metrics
  core_metrics-id [] = refl
  core_metrics-id (m ∷ ms) = ap (◌∷◌ m) (core_metrics-id ms)

  pub map-core_sample : (xs : List (TelemetrySample V)) → map core_sample xs ≡ xs
  unfolding core_sample
  map-core_sample [] = refl
  map-core_sample (x ∷ xs) =
      ap₂ ◌∷◌
        (ap (λ ms. record { timestamp_ms = x.timestamp_ms; metrics = ms })
          (core_metrics-id x.metrics))
        (map-core_sample xs)

  one_in-each : (xs : List (TelemetrySample V)) → one_in 0 0 xs ≡ xs
  one_in-each [] = refl
  one_in-each (x ∷ xs) = ap (◌∷◌ x) (one_in-each xs)

  subscribe-one_hertz :
      (rounds : List (Round (TelemetrySample V)))
      → all_written rounds ≡ true
      → subscribe [] one_hertz rounds ≡ values rounds
  unfolding decimate_of
  subscribe-one_hertz rounds w =
      subscribe_decimates [] one_hertz rounds w
      ∙ (map-unfiltered (one_in 0 0 (values rounds)) ∙ one_in-each (values rounds))

  all_received-serve :
      (vs : List (Visit (Round (TelemetrySample V))))
      → visits_written vs ≡ true
      → all_received (map serve vs) ≡ all_popped vs
  all_received-serve [] w = refl
  all_received-serve (not_ready ∷ vs) w = all_received-serve vs w
  all_received-serve (not_opened ∷ vs) w = all_received-serve vs w
  all_received-serve (streamed rounds ∷ vs) w =
      ap₂ ◌++◌ (subscribe-one_hertz rounds (ground arith)) (all_received-serve vs (ground arith))

  -- The telemetry thread of a client that runs emits, whatever failed attempts to reach the service lie
  -- in between, every sample that the service pops for one of its streams, whole, in order and once, as
  -- long as no write of the service fails: with the 1.0 Hz that it asks for nothing is left out.
  pub samples_delivered :
      (vs : List (Visit (Round (TelemetrySample V))))
      → visits_written vs ≡ true
      → map core_sample (thread_steps true (loop_events (map serve vs)) Phase.outer).1
        ≡ all_popped vs
  samples_delivered vs w =
      rw (thread_steps-loop_events (map serve vs))
        (map-core_sample (all_received (map serve vs)) ∙ all_received-serve vs w)
