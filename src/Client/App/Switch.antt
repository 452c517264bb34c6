-- ===== src/Client/App/Switch.antt =====
-- A switch of the profile, from the button of the client to the service and back to the models.
use hardware_panel.Base.{ℕ, String, Bool, true, List, [], Option, none, some, get_elem?}
use hardware_panel.Bus.{Bus}
use hardware_panel.Fanout.Stream.{waiting}
use hardware_panel.Base.Int.{ℤ}
use hardware_panel.Types.{EventMessage, Profile}
use hardware_panel.Client.App.{Reply, failed, answered, Signal, switch_profile}
use hardware_panel.Manager
use hardware_panel.Manager.{State, notify}
use hardware_panel.Service
use hardware_panel.Store
use hardware_panel.Store.Env.{Json, FileSystem}

-- What the client gets for a call that the service answers, or leaves by an exception.
abbrev pub reply_of : {R : Type 0} → Option R → Reply R
reply_of none = failed "Unexpected error in RPC handling"
reply_of (some r) = answered r

-- The event that the service publishes at a switch.
abbrev pub applied_event : ℤ → String → EventMessage
applied_event now name = record {
  timestamp_ms = now;
  level = "info";
  title = "Profile applied";
  message = name;
}

-- The events that wait for the watcher `i`.
abbrev pub watched_queue : Option Bus → ℕ → List EventMessage
watched_queue none i = []
watched_queue (some bus) i = waiting (get_elem? bus.objects i)

module _ (json : Json) (fs : FileSystem json.Bytes) {W : Type 0} where
  abbrev pub result_of :
      Option (State json fs W × (Bool × String × List String)) → Option (Bool × String)
  result_of none = none
  result_of (some (s, r)) = some (r.0, r.1)

  -- The signals of a switch that the service answers with `answer`, and then with the list of the state
  -- that it has after it.
  abbrev pub switch_signals :
      {V : Type 0}
      → Option (State json fs W × (Bool × String × List String))
      → State json fs W
      → List (Signal V)
  switch_signals answer after =
      switch_profile true (reply_of (result_of answer)) true
        (reply_of (Service.list_profiles json fs after))

  -- The state that a switch leaves.
  abbrev pub after_switch :
      Option (State json fs W × (Bool × String × List String)) → State json fs W → State json fs W
  after_switch none s = s
  after_switch (some (s', r)) s = s'

  -- The state after a switch that succeeds.
  abbrev switched : ℤ → String → Profile → W → State json fs W → State json fs W
  switched now id profile w' s = record {
    dir = Store.set_active_id json fs id s.dir;
    world = w';
    bus = notify now "info" "Profile applied" profile.name s.bus;
  }
