-- ===== src/Collectors/Gpu/Engines.antt =====
-- What PDH contributes to the values for the load of the graphics card.
use hardware_panel.Base.{
  ℕ, ◌+◌, ◌≡◌, refl, ap, ap₂, ◌∙◌, List, [], ◌∷◌, ◌++◌, Option, none, some, false, str_eq,
  if◌then◌else◌, inl, inr, Bool-cases, Option-cases, append-nil,
}
use hardware_panel.Collectors.{Numbers}
use hardware_panel.Collectors.Pdh
use hardware_panel.Collectors.Pdh.{
  Counter, CounterSpec, specs, Query, sum_of, scaled, memory_samples, pdh_collector,
}
use hardware_panel.Collectors.Gpu.Load.{double_of, values_of-append, gpu_values}

module _ (numbers : Numbers) {H S : Type 0} (query : Query H numbers.V S) where
  open numbers use {V, mul}

  -- One value of the specification at index `i`, if some counter of it is valid.
  abbrev pub spec_value : CounterSpec numbers → Option V → List V
  spec_value spec none = []
  spec_value spec (some sum) = mul sum spec.scale ∷ []

  -- The values of the specifications for the load, in order.
  abbrev spec_values : List (CounterSpec numbers) → ℕ → List (Counter H) → S → List V
  spec_values [] i counters s = []
  spec_values (spec ∷ specs) i counters s =
      (if str_eq spec.metric_id "gpu.util_pct"
        then spec_value spec (sum_of numbers query i counters s none)
        else [])
      ++ spec_values specs (i + 1) counters s

  gpu_values-scaled :
      (specs : List (CounterSpec numbers)) (i : ℕ) (counters : List (Counter H)) (s : S)
      (available : Option V)
      → gpu_values numbers (scaled numbers query specs i counters s available).0
        ≡ spec_values specs i counters s
  unfolding scaled
  gpu_values-scaled [] i counters s available = refl
  gpu_values-scaled (spec ∷ specs) i counters s available =
      elim (Option-cases (sum_of numbers query i counters s none)) [
        | inl e ↦ elim (Bool-cases (str_eq spec.metric_id "gpu.util_pct")) [
          | inl same ↦ rw (e, same, scaled) (gpu_values-scaled specs (i + 1) counters s available)
          | inr other ↦ rw (e, other, scaled) (gpu_values-scaled specs (i + 1) counters s available)
        ]
        | inr (sum, e) ↦
            let rest = gpu_values-scaled specs (i + 1) counters s (
              if str_eq spec.metric_id "mem.available_mb"
              then some (mul sum spec.scale)
              else available) in
            elim (Bool-cases (str_eq spec.metric_id "gpu.util_pct")) [
              | inl same ↦ rw (e, same, scaled) (ap (λ vs. mul sum spec.scale ∷ vs) rest)
              | inr other ↦ rw (e, other, scaled) rest
            ]
      ]

  abbrev load_of : Option V → List V
  load_of none = []
  load_of (some sum) = mul sum (numbers.literal 10 1) ∷ []

  gpu_values-memory_samples :
      (available : Option V) (total : Option ℕ)
      → gpu_values numbers (memory_samples numbers query available total) ≡ []
  gpu_values-memory_samples none total = refl
  gpu_values-memory_samples (some available) none = refl
  gpu_values-memory_samples (some available) (some bytes) = refl

  -- What the collector contributes: the sum over the GPU engines whose counters are valid, if any.
  abbrev pub pdh_load : List (Counter H) → S → List V
  pdh_load counters s =
      if Pdh.ready numbers query counters
      then (if query.update s then load_of (sum_of numbers query 5 counters s none) else [])
      else []

  gpu_values-specs :
      (counters : List (Counter H)) (s : S)
      → gpu_values numbers (scaled numbers query (specs numbers) 0 counters s none).0
        ≡ load_of (sum_of numbers query 5 counters s none)
  gpu_values-specs counters s =
      gpu_values-scaled (specs numbers) 0 counters s none
      ∙ elim (Option-cases (sum_of numbers query 5 counters s none)) [
        | inl e ↦ rw e refl
        | inr (sum, e) ↦ rw e refl
      ]

  pub pdh-unready :
      (counters : List (Counter H)) (s : S)
      → Pdh.ready numbers query counters ≡ false
      → Pdh.collect numbers query counters s ≡ []
  unfolding Pdh.collect
  pdh-unready counters s off = rw off refl

  pub gpu_values-pdh :
      (counters : List (Counter H)) (s : S)
      → gpu_values numbers (Pdh.collect numbers query counters s) ≡ pdh_load counters s
  unfolding Pdh.collect
  gpu_values-pdh counters s = elim (Bool-cases (Pdh.ready numbers query counters)) [
    | inl on ↦ elim (Bool-cases (query.update s)) [
      | inl updated ↦
          rw (on, updated)
            (values_of-append (double_of numbers) "gpu.util_pct"
                (scaled numbers query (specs numbers) 0 counters s none).0
                (memory_samples numbers query
                  (scaled numbers query (specs numbers) 0 counters s none).1
                  (query.total_physical s))
              ∙ (ap₂ ◌++◌ (gpu_values-specs counters s) (
                    gpu_values-memory_samples
                      (scaled numbers query (specs numbers) 0 counters s none).1
                      (query.total_physical s))
                  ∙ append-nil (load_of (sum_of numbers query 5 counters s none))))
      | inr failed ↦ rw (on, failed) refl
    ]
    | inr off ↦ rw off refl
  ]
