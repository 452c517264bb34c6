-- ===== src/Collectors/Pdh.antt =====
-- plugins/collectors/pdh_collector.cpp: the performance counters. Paths are in Pdh/CounterPath, the
-- names of counters in Pdh/Names. What PDH answers is an argument, for the state `S` of the machine.
pub mod CounterPath
pub mod Names
pub mod Setup
use hardware_panel.Base.{
  ℕ, zero, suc, ◌+◌, String, Bool, true, false, List, [], ◌∷◌, ◌++◌, Option, none, some, str_eq,
  ◌==◌, if◌then◌else◌,
}
use hardware_panel.Types.{MetricSample}
use hardware_panel.Collectors.{Numbers}
use hardware_panel.Pipeline.{Collector, metrics}

-- `Counter`: the handle and `spec_index`.
pub record Counter (H : Type 0) : Type 0 where
  pub handle : H
  pub spec_index : ℕ

-- `update` is whether PdhCollectQueryData succeeds; `value` is PdhGetFormattedCounterValue, `none` if
-- it fails or the status is not PDH_CSTATUS_VALID_DATA; `total_physical` is `ullTotalPhys` of
-- GlobalMemoryStatusEx.
pub record Query (H V S : Type 0) : Type 0 where
  pub update : S → Bool
  pub value : H → S → Option V
  pub total_physical : S → Option ℕ

module _ (numbers : Numbers) where
  open numbers use {V, literal, of_unsigned, add, sub, mul, div}

  -- `CounterSpec` without the field that is not read.
  pub record CounterSpec : Type 0 where
    pub metric_id : String
    pub unit : String
    pub scale : V

  -- `specs_`.
  abbrev pub specs : List CounterSpec
  specs =
      record { metric_id = "cpu.usage_pct"; unit = "percent"; scale = literal 10 1 }
      ∷ record { metric_id = "cpu.freq_mhz"; unit = "mhz"; scale = literal 10 1 }
      ∷ record { metric_id = "mem.available_mb"; unit = "mb"; scale = literal 10 1 }
      ∷ record { metric_id = "disk.read_bps"; unit = "bps"; scale = literal 10 1 }
      ∷ record { metric_id = "disk.write_bps"; unit = "bps"; scale = literal 10 1 }
      ∷ record { metric_id = "gpu.util_pct"; unit = "percent"; scale = literal 10 1 }
      ∷ record {
        metric_id = "gpu.mem_used_mb";
        unit = "mb";
        scale = div (literal 10 1) (mul (literal 10240 1) (literal 10240 1));
      }
      ∷ []

  module _ {H S : Type 0} (query : Query H V S) where
    open query use {update, value, total_physical}

    -- The entry of `sums` for one key after the loop over the counters, `none` if there is none.
    unfoldable pub sum_of : ℕ → List (Counter H) → S → Option V → Option V
    sum_of i [] s sum = sum
    sum_of i (c ∷ counters) s sum = sum_of i counters s (
        if c.spec_index == i
        then elim (value c.handle s) [
          | none ↦ sum
          | some v ↦ some (add (elim sum [ none ↦ literal 0 1 | some x ↦ x ]) v)
        ]
        else sum)

    -- The loop over the specifications from index `i` on: the samples, and `available_mb` if
    -- `have_available`.
    unfoldable pub scaled :
        List CounterSpec → ℕ → List (Counter H) → S → Option V → List (MetricSample V) × Option V
    unfolding sum_of
    scaled [] i counters s available_mb = ([], available_mb)
    scaled (spec ∷ specs) i counters s available_mb = elim (sum_of i counters s none) [
      | none ↦ scaled specs (i + 1) counters s available_mb
      | some sum ↦
          let v = mul sum spec.scale in
          let (samples, available) =
            scaled specs (i + 1) counters s
              (if str_eq spec.metric_id "mem.available_mb" then some v else available_mb) in
          (record { metric_id = spec.metric_id; value = v; unit = spec.unit } ∷ samples, available)
    ]

    abbrev pub memory_samples : Option V → Option ℕ → List (MetricSample V)
    memory_samples none total = []
    memory_samples (some available_mb) none = []
    memory_samples (some available_mb) (some bytes) =
        let total_mb = div (of_unsigned bytes) (mul (literal 10240 1) (literal 10240 1)) in
        record { metric_id = "mem.used_mb"; value = sub total_mb available_mb; unit = "mb" }
        ∷ record { metric_id = "mem.total_mb"; value = total_mb; unit = "mb" }
        ∷ []

    abbrev is_empty : List (Counter H) → Bool
    is_empty [] = true
    is_empty (c ∷ cs) = false

    -- `ready_`.
    unfoldable pub ready : List (Counter H) → Bool
    ready counters = if is_empty counters then false else true

    unfoldable pub collect : List (Counter H) → S → List (MetricSample V)
    unfolding ready scaled
    collect counters s =
        if ready counters
        then (if update s
            then (let (samples, available_mb) = scaled specs 0 counters s none in
                samples ++ memory_samples available_mb (total_physical s))
            else [])
        else []

    unfoldable pub pdh_collector : List (Counter H) → Collector S V
    pdh_collector counters = record {
      id = "pdh";
      available = λ s. ready counters;
      collect = λ s. (metrics (collect counters s), s);
    }
