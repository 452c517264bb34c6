-- ===== src/Host.antt =====
-- apps/hwpanel-service/service_host.cpp: the composition root of the service. Binding an address is
-- the answer of gRPC, a function from the address; the clocks and `std::to_string` are arguments.
-- What the parts do while they run is in Hub, Bus, Manager and Pipeline.
pub mod Lifecycle
pub mod Scm
pub mod Console
mod Tests
use hardware_panel.Base.{
  ℕ, ◌-◌, String, Bool, true, false, not, List, [], ◌∷◌, ◌++◌, Option, none, some, ◌&◌,
  if◌then◌else◌,
}
use hardware_panel.Base.Int.{ℤ}
use hardware_panel.Bus
use hardware_panel.Bus.{Bus}
use hardware_panel.Endpoint.{tcp_address, default_tcp_port, is_named_pipe_address}
use hardware_panel.Fanout
use hardware_panel.Pipeline
use hardware_panel.Pipeline.{Pipeline, Collector}
use hardware_panel.Store
use hardware_panel.Store.{Dir}
use hardware_panel.Store.Env.{Json, FileSystem}

-- `server` is the address that a bound `server_` listens on; `watching` is `watching_` of the current
-- profile manager, `none` while there is none.
pub record Host (json : Json) (S V : Type 0) : Type 0 where
  pub dir : Dir json
  pub events : Bus
  pub pipeline : Pipeline S V
  pub watching : Option Bool
  pub server : Option String
  pub endpoint : String
  pub started_at : ℕ
  pub running : Bool
  pub paused : Bool

unfoldable pub build_server : (String → Bool) → String → Option String
build_server binds address = if binds address then some address else none

-- The fallback to TCP: the server, and the address that was tried last.
unfoldable pub bind : (String → Bool) → (ℕ → String) → String → Option String × String
unfolding build_server
bind binds to_string endpoint = elim (build_server binds endpoint) [
  | some a ↦ (some a, endpoint)
  | none ↦
      if is_named_pipe_address endpoint
      then (
        build_server binds (tcp_address to_string default_tcp_port),
        tcp_address to_string default_tcp_port,
      )
      else (none, endpoint)
]

abbrev unwatch : Option Bool → Option Bool
unwatch none = none
unwatch (some w) = some false

abbrev pub register_all : {S V : Type 0} → List (Collector S V) → Pipeline S V → Pipeline S V
register_all [] p = p
register_all (c ∷ cs) p = register_all cs (Pipeline.register c p)

module _ {json : Json} {S V : Type 0} where
  unfoldable pub new : Dir json → Host json S V
  new dir = record {
    dir = dir;
    events = Fanout.empty;
    pipeline = Pipeline.empty;
    watching = none;
    server = none;
    endpoint = "";
    started_at = 0;
    running = false;
    paused = false;
  }

  abbrev pub serve : ℤ → ℕ → Option String × String → Host json S V → Host json S V × Bool
  serve now steady (none, actual) h = (record h { server = none }, false)
  serve now steady (some address, actual) h = (
    record h {
      server = some address;
      endpoint = actual;
      started_at = steady;
      running = true;
      events = Bus.publish_now now "info" "Service started" actual h.events;
    },
    true,
  )

module _ (json : Json) (fs : FileSystem json.Bytes) {S V : Type 0} where
  -- `watch` tells whether `StartFileWatch` can open the directory; `none` is the exception that
  -- `EnsureDefaults` lets through.
  unfoldable pub start :
      (String → Bool)
      → (ℕ → String)
      → List (Collector S V)
      → Bool
      → ℤ
      → ℕ
      → String
      → Host json S V
      → Option (Host json S V × Bool)
  unfolding bind
  start binds to_string collectors watch now steady endpoint h =
      if h.running then some (h, true) else elim (Store.ensure_defaults json fs h.dir) [
        | none ↦ none
        | some dir ↦ some (
            serve now steady (bind binds to_string endpoint) (record h {
              dir = dir;
              pipeline = Pipeline.start (register_all collectors h.pipeline);
              watching = some watch;
            }))
      ]

module _ {json : Json} {S V : Type 0} where
  unfoldable pub stop : Host json S V → Host json S V
  stop h =
      if h.running
      then record h {
        running = false;
        server = none;
        pipeline = Pipeline.stop h.pipeline;
        watching = unwatch h.watching;
      }
      else h

  unfoldable pub pause_collectors : Host json S V → Host json S V
  pause_collectors h =
      if h.paused then h else record h { paused = true; pipeline = Pipeline.stop h.pipeline }

  unfoldable pub resume_collectors : Host json S V → Host json S V
  resume_collectors h =
      if h.paused then record h { paused = false; pipeline = Pipeline.start h.pipeline } else h

  unfoldable pub state_name : Host json S V → String
  state_name h = if not h.running then "STOPPED" else if h.paused then "PAUSED" else "RUNNING"

  unfoldable pub uptime_ms : ℕ → Host json S V → ℕ
  uptime_ms steady h = if not h.running then 0 else steady - h.started_at

-- The status message of the protocol.
pub record Status : Type 0 where
  pub version : String
  pub state : String
  pub uptime : ℕ
  pub endpoint : String

-- `GetStatus`, through the status provider that `Start` sets; `steady` is the steady clock.
unfoldable pub get_status : {json : Json} {S V : Type 0} → ℕ → Host json S V → Status
unfolding state_name uptime_ms
get_status steady h = record {
  version = "0.1.0";
  state = state_name h;
  uptime = uptime_ms steady h;
  endpoint = h.endpoint;
}

-- The calls of the service controller on a started host.
pub data Op : Type 0 where
  stops pauses resumes : Op

module _ {json : Json} {S V : Type 0} where
  unfoldable pub step : Host json S V → Op → Host json S V
  unfolding stop pause_collectors resume_collectors
  step h stops = stop h
  step h pauses = pause_collectors h
  step h resumes = resume_collectors h

  unfoldable pub run : Host json S V → List Op → Host json S V
  unfolding step
  run h [] = h
  run h (o ∷ os) = run (step h o) os
