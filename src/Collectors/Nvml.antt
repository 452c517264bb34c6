-- ===== src/Collectors/Nvml.antt =====
-- plugins/collectors/nvml_collector.cpp: the NVIDIA cards. What `GetProcAddress` finds in nvml.dll and
-- what the functions answer, for the state `S` of the machine, is a record of parameters: a function
-- that is not found is `none`, and a call that does not return NVML_SUCCESS gives `none`.
use hardware_panel.Base.{
  ℕ, zero, suc, ◌+◌, String, Bool, false, List, [], ◌∷◌, ◌++◌, Option, none, some, if◌then◌else◌,
}
use hardware_panel.Types.{MetricSample}
use hardware_panel.Collectors.{Numbers}
use hardware_panel.Pipeline.{Collector, metrics}

-- `NvmlMemory` without the field that is not read.
pub record Memory : Type 0 where
  pub total : ℕ
  pub used : ℕ

-- `get_handle` gives `none` for a null device too; `get_utilization` gives the field `gpu`.
pub record Library (S : Type 0) : Type 1 where
  pub Device : Type 0
  pub init : Option Bool
  pub get_count : Option (S → Option ℕ)
  pub get_handle : Option (ℕ → S → Option Device)
  pub get_utilization : Option (Device → S → Option ℕ)
  pub get_memory_info : Option (Device → S → Option Memory)
  pub get_temperature : Option (Device → S → Option ℕ)
  pub get_power_usage : Option (Device → S → Option ℕ)
  pub get_clock_info : Option (Device → S → Option ℕ)

-- The call through a pointer that may be null.
abbrev pub call : {D S A : Type 0} → Option (D → S → Option A) → D → S → Option A
call none d s = none
call (some f) d s = f d s

module _ (numbers : Numbers) {S : Type 0} (library : Library S) where
  open numbers use {V, literal, of_unsigned, mul, div}
  open library use {
    Device, init, get_count, get_handle, get_utilization, get_memory_info, get_temperature,
    get_power_usage, get_clock_info,
  }

  -- The constructor: `ready_`. `loaded` tells whether nvml.dll was found.
  unfoldable pub ready : Bool → Bool
  ready loaded =
      if loaded
      then elim init [
        | none ↦ false
        | some ok ↦ elim get_count [
          | none ↦ false
          | some f ↦ elim get_handle [ none ↦ false | some g ↦ ok ]
        ]
      ]
      else false

  abbrev pub metric : String → V → String → MetricSample V
  metric id value unit = record { metric_id = id; value = value; unit = unit }

  -- `1024.0 * 1024.0`.
  abbrev pub mega : V
  mega = mul (literal 10240 1) (literal 10240 1)

  abbrev pub utilization_metrics : Option ℕ → List (MetricSample V)
  utilization_metrics none = []
  utilization_metrics (some gpu) = metric "gpu.util_pct" (of_unsigned gpu) "percent" ∷ []

  abbrev pub memory_metrics : Option Memory → List (MetricSample V)
  memory_metrics none = []
  memory_metrics (some m) =
      metric "gpu.mem_used_mb" (div (of_unsigned m.used) mega) "mb"
      ∷ metric "gpu.mem_total_mb" (div (of_unsigned m.total) mega) "mb"
      ∷ []

  abbrev pub temperature_metrics : Option ℕ → List (MetricSample V)
  temperature_metrics none = []
  temperature_metrics (some t) = metric "gpu.temp_c" (of_unsigned t) "celsius" ∷ []

  abbrev pub power_metrics : Option ℕ → List (MetricSample V)
  power_metrics none = []
  power_metrics (some milliwatts) =
      metric "gpu.power_w" (div (of_unsigned milliwatts) (literal 10000 1)) "watt" ∷ []

  abbrev pub clock_metrics : Option ℕ → List (MetricSample V)
  clock_metrics none = []
  clock_metrics (some mhz) = metric "gpu.clock_mhz" (of_unsigned mhz) "mhz" ∷ []

  -- The body of the loop for one device.
  unfoldable pub device_metrics : Device → S → List (MetricSample V)
  device_metrics d s =
      utilization_metrics (call get_utilization d s)
      ++ (memory_metrics (call get_memory_info d s)
          ++ (temperature_metrics (call get_temperature d s)
              ++ (power_metrics (call get_power_usage d s)
                  ++ clock_metrics (call get_clock_info d s))))

  -- The loop with `rounds` devices left, at index `i`.
  unfoldable pub devices : ℕ → ℕ → S → List (MetricSample V)
  unfolding device_metrics
  devices zero i s = []
  devices (suc rounds) i s =
      elim (call get_handle i s) [ none ↦ [] | some d ↦ device_metrics d s ]
      ++ devices rounds (i + 1) s

  abbrev pub counted : Option (S → Option ℕ) → S → Option ℕ
  counted none s = none
  counted (some f) s = f s

  unfoldable pub collect : Bool → S → List (MetricSample V)
  unfolding ready devices
  collect loaded s =
      if ready loaded
      then elim (counted get_count s) [ none ↦ [] | some count ↦ devices count 0 s ]
      else []

  unfoldable pub nvml_collector : Bool → Collector S V
  nvml_collector loaded = record {
    id = "nvml";
    available = λ s. ready loaded;
    collect = λ s. (metrics (collect loaded s), s);
  }
