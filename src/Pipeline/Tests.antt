-- ===== src/Pipeline/Tests.antt =====
-- Ticks of a small pipeline, and its properties at them.
use hardware_panel.Base.{ℕ, suc, ◌≡◌, [], ◌∷◌, ◌++◌, true, false, ltb}
use hardware_panel.Base.Int.{pos}
use hardware_panel.Pipeline.{Collector, metrics, threw, tick}
use hardware_panel.Pipeline.Tick.{tick_isolates}

-- It reports how often the machine was asked.
abbrev counts_calls : Collector ℕ ℕ
counts_calls = record {
  id = "counter";
  available = λ s. true;
  collect = λ s. (metrics (record { metric_id = "calls"; value = s; unit = "" } ∷ []), suc s);
}

abbrev fails : Collector ℕ ℕ
fails = record { id = "fails"; available = λ s. ltb 0 s; collect = λ s. (threw, suc s) }

tick_isolates_example :
    let (before, s') = tick (pos 5) (counts_calls ∷ []) 0 in
    ((fails.available s' ≡ false)
      → tick (pos 5) (counts_calls ∷ fails ∷ counts_calls ∷ []) 0
        ≡ tick (pos 5) (counts_calls ∷ counts_calls ∷ []) 0)
    × ((fails.available s' ≡ true)
        → (fails.collect s').0 ≡ threw
        → (tick (pos 5) (counts_calls ∷ fails ∷ counts_calls ∷ []) 0).0.metrics
          ≡ before.metrics ++ (tick (pos 5) (counts_calls ∷ []) (fails.collect s').1).0.metrics)
tick_isolates_example = tick_isolates (pos 5) (counts_calls ∷ []) (counts_calls ∷ []) fails 0
