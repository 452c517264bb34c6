-- ===== src/Pipeline.antt =====
-- plugins/collectors/pipeline.cpp and collector.h: the tick loop over the registered collectors.
-- `S` is the state of the machine that the collectors read and change; times are in milliseconds.
-- Log lines are left out.
pub mod Tick
mod Tests
use hardware_panel.Base.{
  ℕ, zero, suc, ◌+◌, ◌-◌, String, Bool, true, false, List, [], ◌∷◌, ◌++◌, ltb, leb, if◌then◌else◌,
  length,
}
use hardware_panel.Base.Int.{ℤ}
use hardware_panel.Types.{MetricSample, TelemetrySample}

-- `Collect` returns metrics or throws.
pub data Collected (V : Type 0) : Type 0 where
  metrics : List (MetricSample V) → Collected V
  threw : Collected V

pub record Collector (S V : Type 0) : Type 0 where
  pub id : String
  pub available : S → Bool
  pub collect : S → Collected V × S

-- `thread` is `thread_.joinable()`.
pub record Pipeline (S V : Type 0) : Type 0 where
  pub collectors : List (Collector S V)
  pub running : Bool
  pub thread : Bool

abbrev pub of_collected : {V : Type 0} → Collected V → List (MetricSample V)
of_collected (metrics ms) = ms
of_collected threw = []

module _ {S V : Type 0} where
  unfoldable pub empty : Pipeline S V
  empty = record { collectors = []; running = false; thread = false }

  unfoldable pub register : Collector S V → Pipeline S V → Pipeline S V
  register c p = record p { collectors = p.collectors ++ c ∷ [] }

  unfoldable pub start : Pipeline S V → Pipeline S V
  start p = if p.running then p else record p { running = true; thread = true }

  unfoldable pub stop : Pipeline S V → Pipeline S V
  stop p = if p.running then record p { running = false; thread = false } else p

  unfoldable pub collector_count : Pipeline S V → ℕ
  collector_count p = length p.collectors

  -- The loop over the collectors, with `acc` collected so far.
  unfoldable pub collect_all :
      List (Collector S V) → List (MetricSample V) → S → List (MetricSample V) × S
  collect_all [] acc s = (acc, s)
  collect_all (c ∷ cs) acc s =
      let skipped = collect_all cs acc s in
      let asked = collect_all cs (acc ++ of_collected (c.collect s).0) (c.collect s).1 in
      if c.available s then asked else skipped

  -- One tick: the sample that the callback gets.
  unfoldable pub tick : ℤ → List (Collector S V) → S → TelemetrySample V × S
  tick now collectors s =
      let (ms, s') = collect_all collectors [] s in
      (record { timestamp_ms = now; metrics = ms }, s')

-- What the wait at the end of a tick does at one reading of the clock.
pub data Pause : Type 0 where
  sleeps yields : Pause

-- The wait: for each reading of the clock while `running_`, a sleep of 20 ms or a yield, until the
-- deadline has passed.
unfoldable pub wait_loop : ℕ → List ℕ → List (ℕ × Pause)
wait_loop deadline [] = []
wait_loop deadline (now ∷ clock) =
    let rest = wait_loop deadline clock in
    if leb deadline now
    then []
    else (now, if ltb 30 (deadline - now) then sleeps else yields) ∷ rest

-- The wait of a tick that began at `tick_start`; `elapsed` is the reading after the callback.
unfoldable pub wait_tick : ℕ → ℕ → ℕ → List ℕ → List (ℕ × Pause)
unfolding wait_loop
wait_tick interval tick_start elapsed clock =
    if ltb elapsed interval then wait_loop (tick_start + interval) clock else []
