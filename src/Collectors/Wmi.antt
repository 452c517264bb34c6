-- ===== src/Collectors/Wmi.antt =====
-- plugins/collectors/wmi_collector.cpp: the temperature of the thermal zones. What COM and WMI answer
-- to one call of `Collect` is an argument.
pub mod Streak
use hardware_panel.Base.{
  ℕ, suc, ◌+◌, ◌==◌, String, Bool, true, false, List, [], ◌∷◌, Option, none, some, leb,
  if◌then◌else◌,
}
use hardware_panel.Base.Int.{ℤ, pos}
use hardware_panel.Types.{MetricSample}
use hardware_panel.Collectors.{Numbers}
use hardware_panel.Pipeline.{Collected, Collector, metrics}

-- `CoInitializeEx` fails, the locator cannot be created, the namespace cannot be connected, or the
-- query gives these objects: for each the value of "CurrentTemperature", `none` if it cannot be read
-- or is no VT_I4. A query that fails gives none.
pub data Answer : Type 0 where
  no_com no_locator no_connection : Answer
  zones : List (Option ℤ) → Answer

-- `consecutive_failures_` stays small: a collector that is disabled is asked no more.
pub record WmiCollector : Type 0 where
  pub consecutive_failures : ℕ
  pub disabled : Bool

abbrev pub max_consecutive_failures : ℕ
max_consecutive_failures = 10

abbrev pub new_wmi : WmiCollector
new_wmi = record { consecutive_failures = 0; disabled = false }

unfoldable pub available : WmiCollector → Bool
available c = if c.disabled then false else true

-- `++consecutive_failures_ >= kMaxConsecutiveFailures`, and what follows it.
unfoldable pub count_failure : WmiCollector → WmiCollector
count_failure c = record {
  consecutive_failures = c.consecutive_failures + 1;
  disabled = if leb max_consecutive_failures (c.consecutive_failures + 1) then true else c.disabled;
}

-- The zones that can be read.
abbrev pub readable : List (Option ℤ) → List ℤ
readable [] = []
readable (none ∷ zs) = readable zs
readable (some z ∷ zs) = z ∷ readable zs

module _ (numbers : Numbers) where
  open numbers use {V, literal, of_int, add, sub, div}

  -- The loop over the objects: `sum` and `count`.
  unfoldable pub sum_zones : List (Option ℤ) → V → ℕ → V × ℕ
  sum_zones [] sum count = (sum, count)
  sum_zones (none ∷ zs) sum count = sum_zones zs sum count
  sum_zones (some z ∷ zs) sum count =
      sum_zones zs (add sum (sub (div (of_int z) (literal 100 1)) (literal 2732 1))) (count + 1)

  abbrev pub conclude : V × ℕ → WmiCollector → List (MetricSample V) × WmiCollector
  conclude (sum, count) c = if count == 0 then ([], count_failure c) else (
    record { metric_id = "cpu.temp_c"; value = div sum (of_int (pos count)); unit = "celsius" }
        ∷ [],
    record c { consecutive_failures = 0 },
  )

  unfoldable pub collect : Answer → WmiCollector → List (MetricSample V) × WmiCollector
  unfolding count_failure sum_zones
  collect no_com c = ([], c)
  collect no_locator c = ([], c)
  collect no_connection c = ([], count_failure c)
  collect (zones zs) c = conclude (sum_zones zs (literal 0 1) 0) c

  -- The collector of the pipeline; the answers to come are part of the machine, and COM fails when
  -- there are no more.
  abbrev pub asked : List Answer → Answer × List Answer
  asked [] = (no_com, [])
  asked (a ∷ answers) = (a, answers)

  unfoldable pub wmi_collector : Collector (WmiCollector × List Answer) V
  unfolding available collect
  wmi_collector = record {
    id = "wmi";
    available = λ s. available s.0;
    collect = λ s.
        let (answer, later) = asked s.1 in
        let (ms, c) = collect answer s.0 in (metrics ms, (c, later));
  }
