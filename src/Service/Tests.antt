-- ===== src/Service/Tests.antt =====
-- Calls of the telemetry service, and its properties at them.
use hardware_panel.Base.{ℕ, ◌≡◌, refl, List, [], ◌∷◌, true}
use hardware_panel.Base.Int.{pos}
use hardware_panel.Types.{TelemetrySample}
use hardware_panel.Fanout.{Op, publishes, subscribes}
use hardware_panel.Service.{
  IntervalHz, Round, cancelled, timeout, popped, subscribe, sample_to_proto, keep_metrics,
  decimate_of,
}
use hardware_panel.Service.Streaming.{subscribe_decimates}

abbrev sample_at : ℕ → TelemetrySample ℕ
sample_at t = record { timestamp_ms = pos t; metrics = [] }

abbrev half_hz : IntervalHz
half_hz = record { positive = true; below_one = true; rounded_inverse = pos 2 }

abbrev rounds : List (Round (TelemetrySample ℕ))
rounds =
    popped (sample_at 1) true
    ∷ timeout
    ∷ popped (sample_at 2) true
    ∷ popped (sample_at 3) true
    ∷ cancelled
    ∷ popped (sample_at 4) true
    ∷ []

subscribe_decimates_example :
    subscribe ("cpu.usage_pct" ∷ []) half_hz rounds ≡ sample_at 1 ∷ sample_at 3 ∷ []
unfolding sample_to_proto keep_metrics decimate_of
subscribe_decimates_example = subscribe_decimates ("cpu.usage_pct" ∷ []) half_hz rounds refl

abbrev published_three : List (Op (TelemetrySample ℕ))
published_three =
    publishes (sample_at 1) ∷ subscribes ∷ publishes (sample_at 2) ∷ publishes (sample_at 3) ∷ []
