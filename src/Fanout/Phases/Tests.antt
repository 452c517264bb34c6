-- ===== src/Fanout/Phases/Tests.antt =====
-- Interleaved calls of `Publish`, and their properties at them.
use mathlib.Core.List.{Sublistᴰ}
use hardware_panel.Base.{ℕ, ◌≡◌, ◌≤◌, refl, Bool, List, [], ◌∷◌, ◌++◌, arith, ltb}
use hardware_panel.Fanout
use hardware_panel.Fanout.Stream.{received}
use hardware_panel.Fanout.Phases.{
  Op, begins, proceeds, subscribes, pops, releases, run, step, empty, lock_all,
}
use hardware_panel.Fanout.Phases.Words.{keep, passing, queued, published}
use hardware_panel.Fanout.Phases.Order.{in_order_of_thread}
use hardware_panel.Fanout.Phases.Once.{none_twice}

-- Two threads are in `Publish` at once, and the later call delivers first; the owner of the second
-- subscriber goes away in the middle.
abbrev crossed : List (Op ℕ)
crossed =
    subscribes
    ∷ subscribes
    ∷ begins 0 1
    ∷ begins 1 100
    ∷ proceeds 1
    ∷ releases 1
    ∷ proceeds 0
    ∷ proceeds 0
    ∷ proceeds 0
    ∷ begins 0 2
    ∷ proceeds 0
    ∷ proceeds 1
    ∷ pops 0
    ∷ pops 0
    ∷ []

abbrev small : ℕ → Bool
small x = ltb x 50

-- The values of two threads arrive in another order than the one in which `Publish` took them.
other_order : received 0 (run 4 (empty 2) crossed).1 ≡ 100 ∷ 1 ∷ []
unfolding run step empty lock_all Fanout.empty Fanout.subscribe Fanout.pop_at Fanout.pop
    Fanout.release_at Fanout.accept Fanout.update Fanout.is_owned
other_order = refl

both_publish : published 4 (empty 2) crossed ≡ 1 ∷ 100 ∷ 2 ∷ []
unfolding published run step empty lock_all Fanout.empty Fanout.subscribe Fanout.pop_at Fanout.pop
    Fanout.release_at Fanout.accept Fanout.update Fanout.is_owned
both_publish = refl

in_order_of_thread_example :
    let (s, out) = run 4 (empty 2) crossed in
    Sublistᴰ
      (keep small (received 0 out ++ queued 0 s))
      (keep small (published 4 (empty 2) crossed))
in_order_of_thread_example =
    in_order_of_thread 4 2 small 0 0 crossed
      ((λ h. refl), ((λ h. absurd (ground arith)), ((λ h. refl), tt)))

none_twice_example :
    let (s, out) = run 4 (empty 2) crossed in
    passing small (received 0 out ++ queued 0 s) ≤ passing small (published 4 (empty 2) crossed)
none_twice_example = none_twice 4 2 small 0 crossed
