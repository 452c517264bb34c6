-- ===== src/Collectors/Gpu/Load.antt =====
-- The values for the load of the graphics card among the metrics, and what NVML contributes.
use hardware_panel.Base.{
  ℕ, zero, suc, ◌+◌, ◌≡◌, refl, ap₂, ◌∙◌, List, [], ◌∷◌, ◌++◌, Option, none, some, String, Bool,
  false, if◌then◌else◌, arith, inl, inr, Bool-cases, Option-cases, append-nil,
}
use hardware_panel.Types.{MetricSample}
use hardware_panel.Client.{Double}
use hardware_panel.Client.Routing.{values_of}
use hardware_panel.Collectors.{Numbers}
use hardware_panel.Collectors.Nvml
use hardware_panel.Collectors.Nvml.{Library, call, counted, device_metrics, devices, nvml_collector}

-- The `double` of the client.
abbrev pub double_of : Numbers → Double
double_of numbers = record { V = numbers.V; zero_value = numbers.literal 0 1; add = numbers.add }

module _ (double : Double) where
  pub values_of-append :
      (id : String) (xs ys : List (MetricSample double.V))
      → values_of double id (xs ++ ys) ≡ values_of double id xs ++ values_of double id ys
  values_of-append id [] ys = refl
  values_of-append id (x ∷ xs) ys = ground (arith, values_of-append id xs ys)

abbrev pub gpu_values : (numbers : Numbers) → List (MetricSample numbers.V) → List numbers.V
gpu_values numbers = values_of (double_of numbers) "gpu.util_pct"

module _ (numbers : Numbers) {S : Type 0} (library : Library S) where
  open numbers use {V, of_unsigned}

  abbrev load : Option ℕ → List V
  load none = []
  load (some gpu) = of_unsigned gpu ∷ []

  abbrev device_load : Option library.Device → S → List V
  device_load none s = []
  device_load (some d) s = load (call library.get_utilization d s)

  -- The cards that tell their load, in order.
  abbrev pub loads : ℕ → ℕ → S → List V
  loads zero i s = []
  loads (suc rounds) i s = device_load (call library.get_handle i s) s ++ loads rounds (i + 1) s

  gpu_values-utilization :
      (u : Option ℕ) → gpu_values numbers (Nvml.utilization_metrics numbers library u) ≡ load u
  gpu_values-utilization none = refl
  gpu_values-utilization (some gpu) = refl

  gpu_values-memory :
      (m : Option Nvml.Memory) → gpu_values numbers (Nvml.memory_metrics numbers library m) ≡ []
  gpu_values-memory none = refl
  gpu_values-memory (some m) = refl

  gpu_values-temperature :
      (t : Option ℕ) → gpu_values numbers (Nvml.temperature_metrics numbers library t) ≡ []
  gpu_values-temperature none = refl
  gpu_values-temperature (some t) = refl

  gpu_values-power : (p : Option ℕ) → gpu_values numbers (Nvml.power_metrics numbers library p) ≡ []
  gpu_values-power none = refl
  gpu_values-power (some p) = refl

  gpu_values-clock : (c : Option ℕ) → gpu_values numbers (Nvml.clock_metrics numbers library c) ≡ []
  gpu_values-clock none = refl
  gpu_values-clock (some c) = refl

  gpu_values-device :
      (d : library.Device) (s : S)
      → gpu_values numbers (device_metrics numbers library d s)
        ≡ load (call library.get_utilization d s)
  unfolding device_metrics
  gpu_values-device d s = simp (
    values_of-append, gpu_values-utilization, gpu_values-memory, gpu_values-temperature,
    gpu_values-power, gpu_values-clock, append-nil,
  )

  gpu_values-devices :
      (rounds i : ℕ) (s : S)
      → gpu_values numbers (devices numbers library rounds i s) ≡ loads rounds i s
  unfolding devices
  gpu_values-devices zero i s = refl
  gpu_values-devices (suc rounds) i s = elim (Option-cases (call library.get_handle i s)) [
    | inl missing ↦ rw (missing, devices) (gpu_values-devices rounds (i + 1) s)
    | inr (d, found) ↦
        rw (found, devices)
          (values_of-append (double_of numbers) "gpu.util_pct" (device_metrics numbers library d s)
              (devices numbers library rounds (i + 1) s)
            ∙ ap₂ ◌++◌ (gpu_values-device d s) (gpu_values-devices rounds (i + 1) s))
  ]

  -- What the collector contributes: one value for each card that tells its load.
  abbrev pub nvml_loads : Bool → S → List V
  nvml_loads loaded s =
      if Nvml.ready numbers library loaded
      then elim (counted numbers library library.get_count s) [
        | none ↦ []
        | some count ↦ loads count 0 s
      ]
      else []

  pub nvml-unready :
      (loaded : Bool) (s : S)
      → Nvml.ready numbers library loaded ≡ false
      → Nvml.collect numbers library loaded s ≡ []
  unfolding Nvml.collect
  nvml-unready loaded s off = rw off refl

  pub gpu_values-nvml :
      (loaded : Bool) (s : S)
      → gpu_values numbers (Nvml.collect numbers library loaded s) ≡ nvml_loads loaded s
  unfolding Nvml.collect
  gpu_values-nvml loaded s = elim (Bool-cases (Nvml.ready numbers library loaded)) [
    | inl on ↦ elim (Option-cases (counted numbers library library.get_count s)) [
      | inl failed ↦ rw (on, failed) refl
      | inr (count, found) ↦ rw (on, found) (gpu_values-devices count 0 s)
    ]
    | inr off ↦ rw off refl
  ]
