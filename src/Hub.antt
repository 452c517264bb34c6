-- ===== src/Hub.antt =====
-- libs/core/src/telemetry_hub.cpp: the fan-out point of the telemetry pipeline. `history_` is a
-- ring buffer; the subscriber queues are those of Fanout, with a capacity of 64.
pub mod History
mod Tests
use hardware_panel.Base.{ℕ, List, [], ◌∷◌, ◌++◌, Option, if◌then◌else◌}
use hardware_panel.Base.Int.{ℤ, pos, int_lt, int_of_size, size_of_int}
use hardware_panel.Types.{TelemetrySample}
use hardware_panel.Ring
use hardware_panel.Ring.{Ring}
use hardware_panel.Fanout
use hardware_panel.Fanout.{Registry, Op, publishes, subscribes, pops, closes, releases}

abbrev pub default_history_capacity : ℕ
default_history_capacity = 300

abbrev pub subscriber_queue_capacity : ℕ
subscriber_queue_capacity = 64

pub record Hub (V : Type 0) : Type 0 where
  pub history_ring : Ring (TelemetrySample V)
  pub registry : Registry (TelemetrySample V)

-- `std::clamp`, for `lo` not above `hi`.
abbrev pub clamp : ℤ → ℤ → ℤ → ℤ
clamp v lo hi = if int_lt v lo then lo else if int_lt hi v then hi else v

module _ {V : Type 0} where
  unfoldable pub new : ℕ → Hub V
  new history_capacity = record {
    history_ring = Ring.new history_capacity;
    registry = Fanout.empty;
  }

  unfoldable pub publish : TelemetrySample V → Hub V → Hub V
  publish sample h = record {
    history_ring = Ring.push h.history_ring sample;
    registry = Fanout.publish subscriber_queue_capacity sample h.registry;
  }

  unfoldable pub subscribe : Hub V → Hub V × ℕ
  subscribe h = let (r, id) = Fanout.subscribe h.registry in (record h { registry = r }, id)

  unfoldable pub history : Hub V → ℤ → Option (List (TelemetrySample V))
  history h seconds =
      let capped = clamp seconds (pos 0) (int_of_size (Ring.capacity h.history_ring)) in
      Ring.last_n h.history_ring (size_of_int capped)

  unfoldable pub history_size : Hub V → ℕ
  history_size h = Ring.size h.history_ring

  -- A step of some thread: a publication by the pipeline, or what a streaming call does to its
  -- subscriber.
  unfoldable pub step : Hub V → Op (TelemetrySample V) → Hub V × List (ℕ × TelemetrySample V)
  step h (publishes v) = (publish v h, [])
  step h subscribes = ((subscribe h).0, [])
  step h (pops i) =
      let (r, out) = Fanout.step subscriber_queue_capacity h.registry (pops i) in
      (record h { registry = r }, out)
  step h (closes i) = (record h { registry = Fanout.close_at h.registry i }, [])
  step h (releases i) = (record h { registry = Fanout.release_at h.registry i }, [])

  unfoldable pub run : Hub V → List (Op (TelemetrySample V)) → Hub V × List (ℕ × TelemetrySample V)
  run h [] = (h, [])
  run h (o ∷ os) = let (h', out) = step h o in let (h'', outs) = run h' os in (h'', out ++ outs)
