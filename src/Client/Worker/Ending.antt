-- ===== src/Client/Worker/Ending.antt =====
-- How a worker that is told to stop comes to its end.
use hardware_panel.Base.{◌≡◌, refl, Bool, true, false, List, [], ◌∷◌, ◌++◌, arith}
use hardware_panel.Client.Worker.{
  Phase, Event, unready, no_reader, reader, end_of_stream, own, message, thread_step, thread_steps,
  Stopper, Worker, stop_step, Action, telemetry_steps, events_steps, stop_steps, act, run,
}
use hardware_panel.Client.Worker.Stop.{stopped, returns}

-- Four steps of a thread with `running_` false, in the first of which `Read` returns if the thread is
-- there, let it end.
thread_steps-ended :
    {A : Type 0} (e1 e2 e3 e4 : Event A) (p : Phase)
    → returns e1 ≡ true
    → (thread_steps false (e1 ∷ e2 ∷ e3 ∷ e4 ∷ []) p).0 ≡ Phase.ended
unfolding thread_steps thread_step
thread_steps-ended e1 e2 e3 e4 Phase.outer h = refl
thread_steps-ended e1 e2 e3 e4 Phase.inner h = refl
thread_steps-ended e1 e2 e3 e4 Phase.ended h = refl
thread_steps-ended e1 e2 e3 e4 (Phase.sleeping ms) h = refl
thread_steps-ended (message x) e2 e3 e4 Phase.in_read h = refl
thread_steps-ended end_of_stream e2 e3 e4 Phase.in_read h = refl
thread_steps-ended unready e2 e3 e4 Phase.in_read h = ground arith
thread_steps-ended no_reader e2 e3 e4 Phase.in_read h = ground arith
thread_steps-ended reader e2 e3 e4 Phase.in_read h = ground arith
thread_steps-ended own e2 e3 e4 Phase.in_read h = ground arith

module _ {A B : Type 0} where
  abbrev pub all_telemetry : List (Event A) → List (Action A B)
  all_telemetry [] = []
  all_telemetry (e ∷ es) = telemetry_steps e ∷ all_telemetry es

  abbrev pub all_events : List (Event B) → List (Action A B)
  all_events [] = []
  all_events (e ∷ es) = events_steps e ∷ all_events es

  abbrev pub closing : List (Event A) → List (Event B) → List (Action A B)
  closing es fs = all_telemetry es ++ (all_events fs ++ (stop_steps ∷ stop_steps ∷ []))

  run-closing :
      (a1 a2 a3 a4 : Event A) (b1 b2 b3 b4 : Event B) (c : Bool) (t e : Phase)
      → returns a1 ≡ true
      → returns b1 ≡ true
      → (run (closing (a1 ∷ a2 ∷ a3 ∷ a4 ∷ []) (b1 ∷ b2 ∷ b3 ∷ b4 ∷ [])) (record {
        running = false;
        connected = c;
        telemetry = t;
        events = e;
        stopper = Stopper.joining_telemetry;
      })).0
        ≡ stopped false false
  unfolding run act thread_steps stop_step
  run-closing a1 a2 a3 a4 b1 b2 b3 b4 c t e ra rb =
      rw (thread_steps-ended a1 a2 a3 a4 t ra, thread_steps-ended b1 b2 b3 b4 e rb) refl

  -- Once `Stop` has cleared the flag of a worker that runs, four steps of each thread, in the first of
  -- which `Read` returns if the thread is in it, and two steps of `Stop` make it return, wherever the
  -- threads stood; the channel manager is stopped then.
  pub stop_returns :
      (w : Worker) (a1 a2 a3 a4 : Event A) (b1 b2 b3 b4 : Event B)
      → w.running ≡ true
      → w.stopper ≡ Stopper.idle
      → returns a1 ≡ true
      → returns b1 ≡ true
      → (run (stop_steps ∷ closing (a1 ∷ a2 ∷ a3 ∷ a4 ∷ []) (b1 ∷ b2 ∷ b3 ∷ b4 ∷ [])) w).0
        ≡ stopped false false
  unfolding run act stop_step
  stop_returns w a1 a2 a3 a4 b1 b2 b3 b4 on called ra rb =
      rw (called, on) (run-closing a1 a2 a3 a4 b1 b2 b3 b4 w.connected w.telemetry w.events ra rb)
