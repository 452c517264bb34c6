-- ===== src/Fanout/Tests.antt =====
-- Runs of the subscriber queues, and their properties at them.
use mathlib.Core.List.{Sublistᴰ}
use hardware_panel.Base.{ℕ, ◌≡◌, refl, List, [], ◌∷◌, ◌++◌, some, arith, true, false, get_elem?}
use hardware_panel.Fanout.{
  Cell, Op, publishes, subscribes, pops, pop, accept, empty, subscribe, live, update, deliver,
  publish, pop_at, step, run,
}
use hardware_panel.Fanout.Delivery.{publish_isolated}
use hardware_panel.Fanout.WellFormed.{empty-IsWellFormed, run-IsWellFormed}
use hardware_panel.Fanout.Stream.{received, waiting}
use hardware_panel.Fanout.Promises.{in_order, burst_kept}

abbrev seven_waits : List (Op ℕ)
seven_waits = subscribes ∷ publishes 7 ∷ []

abbrev holds_seven : Cell ℕ
holds_seven = record { owned = true; sub = record { queue = 7 ∷ []; closed = false } }

abbrev burst : List (Op ℕ)
burst = publishes 8 ∷ pops 0 ∷ subscribes ∷ publishes 9 ∷ []

abbrev slow : List (Op ℕ)
slow = subscribes ∷ publishes 1 ∷ publishes 2 ∷ publishes 3 ∷ pops 0 ∷ []

seven_waits-holds : get_elem? (run 4 empty seven_waits).0.objects 0 ≡ some holds_seven
unfolding run step subscribe publish empty live update deliver accept
seven_waits-holds = refl

drops_oldest : received 0 (run 2 empty slow).1 ≡ 2 ∷ []
unfolding run step subscribe publish empty live update deliver accept pop_at pop
drops_oldest = refl

in_order_example :
    Sublistᴰ
      (received 0 (run 2 empty slow).1 ++ waiting (get_elem? (run 2 empty slow).0.objects 0))
      (1 ∷ 2 ∷ 3 ∷ [])
in_order_example = in_order 2 slow 0

publish_isolated_example :
    get_elem? (publish 4 8 (run 4 empty seven_waits).0).objects 0
    ≡ some (record holds_seven { sub = accept 4 8 holds_seven.sub })
publish_isolated_example =
    publish_isolated 4 8 (run 4 empty seven_waits).0 0 holds_seven
      (run-IsWellFormed 4 empty seven_waits empty-IsWellFormed) seven_waits-holds

burst_kept_example :
    let (r, out) = run 4 (run 4 empty seven_waits).0 burst in
    received 0 out ++ waiting (get_elem? r.objects 0) ≡ 7 ∷ 8 ∷ 9 ∷ []
burst_kept_example =
    burst_kept 4 seven_waits burst 0 holds_seven seven_waits-holds refl refl tt (omega arith)
