-- ===== src/Hub/Tests.antt =====
-- A run of the hub, and its properties at it.
use hardware_panel.Base.{ℕ, ◌≡◌, List, [], ◌∷◌, some, arith}
use hardware_panel.Base.Int.{pos}
use hardware_panel.Types.{TelemetrySample}
use hardware_panel.Fanout.{Op, publishes, subscribes, pops}
use hardware_panel.Hub.{new, history, run}
use hardware_panel.Hub.History.{history-run}

abbrev pub sample_at : ℕ → TelemetrySample ℕ
sample_at t = record { timestamp_ms = pos t; metrics = [] }

abbrev pub three_samples : List (Op (TelemetrySample ℕ))
three_samples =
    publishes (sample_at 1)
    ∷ subscribes
    ∷ publishes (sample_at 2)
    ∷ pops 0
    ∷ publishes (sample_at 3)
    ∷ []

history-run_example :
    history (run (new 2) three_samples).0 (pos 600) ≡ some (sample_at 2 ∷ sample_at 3 ∷ [])
history-run_example = history-run 2 three_samples (pos 600) (omega arith) (omega arith)
