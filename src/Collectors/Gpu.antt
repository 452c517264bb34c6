-- ===== src/Collectors/Gpu.antt =====
-- The load of the graphics card on its way from the collectors to the chart of the client.
pub mod Load
pub mod Engines
use hardware_panel.Base.{
  ℕ, zero, suc, ◌+◌, List, [], ◌∷◌, Option, none, some, String, Bool, false, str_eq, if◌then◌else◌,
  arith, Option-cases,
}
use hardware_panel.Base.Int.{ℤ}
use hardware_panel.Types.{MetricSample, TelemetrySample}
use hardware_panel.Client.{Double}
use hardware_panel.Client.Routing.{values_of}
use hardware_panel.Collectors.{Numbers}
use hardware_panel.Collectors.Nvml
use hardware_panel.Collectors.Nvml.{Library, call, counted, device_metrics, devices, nvml_collector}
use hardware_panel.Collectors.Pdh
use hardware_panel.Collectors.Pdh.{
  Counter, CounterSpec, specs, Query, sum_of, scaled, memory_samples, pdh_collector,
}
use hardware_panel.Pipeline.{tick}

module _ (numbers : Numbers) {H S : Type 0} (query : Query H numbers.V S)
    (library : Library S) where
  open numbers use {V}

  -- The tick of the service on a machine where both collectors run.
  abbrev pub both_tick : ℤ → List (Counter H) → Bool → S → TelemetrySample V
  both_tick now counters loaded s =
      (tick now (pdh_collector numbers query counters ∷ nvml_collector numbers library loaded ∷ [])
        s).0
