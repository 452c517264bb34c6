-- ===== src/Service.antt =====
-- apps/hwpanel-service/grpc: the two gRPC services over the hub, the bus and the profile manager.
-- Messages of the protocol are the records of Types. What a streaming call meets (a timeout, a
-- sample, a client that cancels or goes away) is a list of events.
pub mod Streaming
mod Tests
use hardware_panel.Base.{
  ℕ, zero, suc, ◌+◌, ◌%◌, ◌<◌, String, Bool, true, false, not, ◌&&◌, List, [], ◌∷◌, ◌++◌, Option,
  none, some, str_eq, ltb, ◌==◌, if◌then◌else◌, map,
}
use hardware_panel.Base.Int.{ℤ, pos, negsuc}
use hardware_panel.Types.{MetricSample, TelemetrySample, EventMessage, Profile}
use hardware_panel.Executors.{Executor}
use hardware_panel.Hub
use hardware_panel.Hub.{Hub}
use hardware_panel.Manager
use hardware_panel.Manager.{State, SwitchResult}
use hardware_panel.Store.Env.{Json, FileSystem}

-- `std::set::count`.
abbrev pub contains : String → List String → Bool
contains k [] = false
contains k (j ∷ js) = if str_eq j k then true else contains k js

abbrev pub is_empty {ℓ} : {A : Type ℓ} → List A → Bool
is_empty [] = true
is_empty (x ∷ xs) = false

module _ {V : Type 0} where
  -- The loop of `ToProto` over the metrics.
  unfoldable pub keep_metrics : List String → List (MetricSample V) → List (MetricSample V)
  keep_metrics filter [] = []
  keep_metrics filter (m ∷ ms) =
      let rest = keep_metrics filter ms in
      if not (is_empty filter) && not (contains m.metric_id filter) then rest else m ∷ rest

  unfoldable pub sample_to_proto : List String → TelemetrySample V → TelemetrySample V
  unfolding keep_metrics
  sample_to_proto filter sample = record {
    timestamp_ms = sample.timestamp_ms;
    metrics = keep_metrics filter sample.metrics;
  }

unfoldable pub profile_to_proto : Profile → Profile
profile_to_proto p = record {
  id = p.id;
  name = p.name;
  description = p.description;
  settings = p.settings;
}

unfoldable pub event_to_proto : EventMessage → EventMessage
event_to_proto e = record {
  timestamp_ms = e.timestamp_ms;
  level = e.level;
  title = e.title;
  message = e.message;
}

-- `request->interval_hz()`: whether it is above 0 and below 1, and `std::lround(1.0 / hz)`.
pub record IntervalHz : Type 0 where
  pub positive : Bool
  pub below_one : Bool
  pub rounded_inverse : ℤ

abbrev at_least_one : ℤ → ℕ
at_least_one (pos n) = if ltb n 1 then 1 else n
at_least_one (negsuc n) = 1

unfoldable pub decimate_of : IntervalHz → ℕ
decimate_of hz = if hz.positive && hz.below_one then at_least_one hz.rounded_inverse else 1

-- What one round of a streaming loop meets: the client has cancelled, `Pop` gives nothing, or it
-- gives a value, whose write would succeed or not.
pub data Round (A : Type 0) : Type 0 where
  cancelled timeout : Round A
  popped : A → Bool → Round A

module _ {V : Type 0} where
  -- The loop of `Subscribe`: what is written, in order, from the loop's `index` on.
  unfoldable pub subscribe_loop :
      List String → ℕ → ℕ → List (Round (TelemetrySample V)) → List (TelemetrySample V)
  subscribe_loop filter decimate index [] = []
  subscribe_loop filter decimate index (cancelled ∷ rounds) = []
  subscribe_loop filter decimate index (timeout ∷ rounds) =
      subscribe_loop filter decimate index rounds
  subscribe_loop filter decimate index (popped sample written ∷ rounds) =
      let rest = subscribe_loop filter decimate (index + 1) rounds in
      if not (index % decimate == 0)
      then rest
      else if written
      then sample_to_proto filter sample ∷ rest
      else []

  unfoldable pub subscribe :
      List String → IntervalHz → List (Round (TelemetrySample V)) → List (TelemetrySample V)
  unfolding subscribe_loop
  subscribe metric_filter hz rounds = subscribe_loop metric_filter (decimate_of hz) 0 rounds

  unfoldable pub get_history : ℤ → Hub V → Option (List (TelemetrySample V))
  get_history seconds hub = elim (Hub.history hub seconds) [
    | none ↦ none
    | some samples ↦ some (map (sample_to_proto []) samples)
  ]

-- The loop of `WatchEvents`.
unfoldable pub watch_events : List (Round EventMessage) → List EventMessage
watch_events [] = []
watch_events (cancelled ∷ rounds) = []
watch_events (timeout ∷ rounds) = watch_events rounds
watch_events (popped event written ∷ rounds) =
    let rest = watch_events rounds in if written then event_to_proto event ∷ rest else []

module _ (json : Json) (fs : FileSystem json.Bytes) {W : Type 0} where
  -- `none`: an exception leaves the handler.
  unfoldable pub list_profiles : State json fs W → Option (List Profile × String)
  list_profiles s = elim (Manager.list json fs s) [
    | none ↦ none
    | some ps ↦ some (map profile_to_proto ps, Manager.active_id json fs s)
  ]

  -- The response's `ok`, `message` and `rolled_back_keys`.
  unfoldable pub switch_profile :
      List (Executor W)
      → ℤ
      → String
      → State json fs W
      → Option (State json fs W × (Bool × String × List String))
  switch_profile executors now profile_id s =
      elim (Manager.switch_to json fs executors now profile_id s) [
        | none ↦ none
        | some (s', r) ↦ some (s', (r.ok, r.message, r.rolled_back_keys))
      ]
