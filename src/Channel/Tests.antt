-- ===== src/Channel/Tests.antt =====
-- A run of the watchdog, and its properties at it.
use hardware_panel.Base.{◌≡◌, refl, ℕ, List, [], ◌∷◌, Option, none, some, true, false}
use hardware_panel.Channel.{
  ConnectionState, Connectivity, Probe, Manager, new, start, set_state_callback, monitor_loop,
}
use hardware_panel.Channel.Backoff.{monitor_waits}
use hardware_panel.Channel.Transitions.{Alternates, last, monitor_calls}

abbrev probe : Connectivity → Option ℕ → Probe
probe g c = record { gstate = g; changes_after = c }

-- The first failure is left early, and a probe changes later than its deadline.
abbrev probes : List Probe
probes =
    probe Connectivity.idle none
    ∷ probe Connectivity.shutdown (some 40)
    ∷ probe Connectivity.transient_failure none
    ∷ probe Connectivity.ready (some 900)
    ∷ probe Connectivity.ready (some 7)
    ∷ probe Connectivity.shutdown none
    ∷ []

abbrev watched : Manager
watched = record {
  address = "127.0.0.1:50051";
  has_channel = false;
  state = ConnectionState.disconnected;
  has_callback = true;
  running = true;
  thread = true;
}

watched-new : set_state_callback true (start (new "127.0.0.1:50051")) ≡ watched
unfolding set_state_callback start new
watched-new = refl

monitor_waits_example : (monitor_loop probes watched).2 ≡ 500 ∷ 40 ∷ 2000 ∷ 500 ∷ 7 ∷ 1000 ∷ []
monitor_waits_example = monitor_waits probes watched

monitor_calls_example :
    let (m, calls, waits) = monitor_loop probes watched in
    Alternates ConnectionState.disconnected calls
    × (last ConnectionState.disconnected calls ≡ ConnectionState.disconnected)
    × (m.state ≡ ConnectionState.disconnected)
monitor_calls_example = monitor_calls probes watched refl
