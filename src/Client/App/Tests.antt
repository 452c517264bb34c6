-- ===== src/Client/App/Tests.antt =====
-- A switch that succeeds, from the client to its models.
use hardware_panel.Base.{ℕ, ◌+◌, String, true, List, [], ◌∷◌, some}
use hardware_panel.Base.Int.{pos}
use hardware_panel.Types.{EventMessage, Profile}
use hardware_panel.Fanout
use hardware_panel.Fanout.{Op, subscribes, publishes}
use hardware_panel.Executors.{Executor}
use hardware_panel.Client.{Double}
use hardware_panel.Manager.{State}
use hardware_panel.Service
use hardware_panel.Store
use hardware_panel.Store.Sample.{sample_json, sample_fs}

abbrev whole : Double
whole = record { V = ℕ; zero_value = 0; add = λ x y. x + y }

abbrev plan : Executor String
plan = record {
  key = "power.plan";
  available = λ w. true;
  current_value = λ w. w;
  apply = λ v w. (record { ok = true; message = v }, v);
}

abbrev saver : Profile
saver = record {
  id = "saver";
  name = "Saver";
  description = "";
  settings = ("power.plan", "saver") ∷ [];
}

-- One event waits for the watcher already.
abbrev old_event : EventMessage
old_event = record { timestamp_ms = pos 3; level = "info"; title = "Hello"; message = "" }

abbrev watching : List (Op EventMessage)
watching = subscribes ∷ publishes old_event ∷ []

abbrev service : State sample_json sample_fs String
service = record {
  dir = (Store.save sample_json sample_fs saver []).0;
  world = "balanced";
  bus = some (Fanout.run 32 Fanout.empty watching).0;
}
