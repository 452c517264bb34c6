-- ===== src/Ring/Tests.antt =====
-- Runs of the ring buffer, and its properties at them.
use hardware_panel.Base.{ℕ, ◌≡◌, refl, List, [], ◌∷◌, some, arith}
use hardware_panel.Ring.{Op, pushes, clears, new, push, last_n, clear, step, run}
use hardware_panel.Ring.Refine.{last_n-run}

abbrev script : List (Op ℕ)
script = pushes 9 ∷ clears ∷ pushes 1 ∷ pushes 2 ∷ pushes 3 ∷ pushes 4 ∷ pushes 5 ∷ []

wraps_round : (run (new 3) script).buf ≡ 4 ∷ 5 ∷ 3 ∷ []
unfolding run step push new clear
wraps_round = refl

last_n-run_example : last_n (run (new 3) script) 2 ≡ some (4 ∷ 5 ∷ [])
last_n-run_example = last_n-run 3 script 2 (omega arith)
