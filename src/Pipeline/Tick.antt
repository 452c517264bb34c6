-- ===== src/Pipeline/Tick.antt =====
-- One bad collector does not spoil a tick, and a tick does not oversleep.
use hardware_panel.Base.{
  ℕ, ◌+◌, ◌≤◌, ◌<◌, ◌≡◌, refl, ap, sym, ◌∙◌, true, false, List, [], ◌∷◌, ◌++◌, Bool-cases, inl, inr,
  arith, append_assoc, append-nil,
}
use hardware_panel.Base.Int.{ℤ}
use hardware_panel.Types.{MetricSample}
use hardware_panel.Pipeline.{
  threw, Collector, of_collected, collect_all, tick, Pause, sleeps, yields, wait_loop, wait_tick,
}

module _ {S V : Type 0} where
  collect_all-acc :
      (cs : List (Collector S V)) (acc : List (MetricSample V)) (s : S)
      → (collect_all cs acc s).0 ≡ acc ++ (collect_all cs [] s).0
  unfolding collect_all
  collect_all-acc [] acc s = sym (append-nil acc)
  collect_all-acc (c ∷ cs) acc s = elim (Bool-cases (c.available s)) [
    | inr off ↦ rw off (collect_all-acc cs acc s)
    | inl on ↦
        let ms = of_collected (c.collect s).0 in
        rw on (
          collect_all-acc cs (acc ++ ms) (c.collect s).1
          ∙ (append_assoc acc ms (collect_all cs [] (c.collect s).1).0
              ∙ ap (◌++◌ acc) (sym (collect_all-acc cs ms (c.collect s).1))))
  ]

  collect_all-state :
      (cs : List (Collector S V)) (acc : List (MetricSample V)) (s : S)
      → (collect_all cs acc s).1 ≡ (collect_all cs [] s).1
  unfolding collect_all
  collect_all-state [] acc s = refl
  collect_all-state (c ∷ cs) acc s = elim (Bool-cases (c.available s)) [
    | inr off ↦ rw off (collect_all-state cs acc s)
    | inl on ↦ rw on (
        collect_all-state cs (acc ++ of_collected (c.collect s).0) (c.collect s).1
        ∙ sym (collect_all-state cs (of_collected (c.collect s).0) (c.collect s).1))
  ]

  collect_all-append :
      (xs ys : List (Collector S V)) (acc : List (MetricSample V)) (s : S)
      → let (ms, s') = collect_all xs acc s in collect_all (xs ++ ys) acc s ≡ collect_all ys ms s'
  unfolding collect_all
  collect_all-append [] ys acc s = refl
  collect_all-append (c ∷ xs) ys acc s = elim (Bool-cases (c.available s)) [
    | inr off ↦ rw off (collect_all-append xs ys acc s)
    | inl on ↦
        rw on (collect_all-append xs ys (acc ++ of_collected (c.collect s).0) (c.collect s).1)
  ]

  -- A tick polls the collectors in the order of their registration. One that is not available at its
  -- turn changes nothing: the sample and the machine are as without it. One that throws adds no metric
  -- but the others add theirs: the sample is that of the collectors before it, followed by that of the
  -- collectors after it from the state that the throwing call left.
  pub tick_isolates :
      (now : ℤ) (xs ys : List (Collector S V)) (c : Collector S V) (s : S)
      → let (before, s') = tick now xs s in
        ((c.available s' ≡ false) → tick now (xs ++ c ∷ ys) s ≡ tick now (xs ++ ys) s)
        × ((c.available s' ≡ true)
            → (c.collect s').0 ≡ threw
            → (tick now (xs ++ c ∷ ys) s).0.metrics
              ≡ before.metrics ++ (tick now ys (c.collect s').1).0.metrics)
  unfolding tick collect_all
  tick_isolates now xs ys c s =
      let (ms, s') = collect_all xs [] s in
      let with_c = collect_all-append xs (c ∷ ys) [] s in
      let without = collect_all-append xs ys [] s in
      (
        λ off.
            ap
              (λ (r : List (MetricSample V) × S).
                (record { timestamp_ms = now; metrics = r.0 }, r.1))
              (with_c ∙ (rw (collect_all, off) refl ∙ sym without)),
        λ on bad.
            let thrown : collect_all (c ∷ ys) ms s' ≡ collect_all ys (ms ++ []) (c.collect s').1 =
              rw (collect_all, on, bad) refl in
            ap (λ (r : List (MetricSample V) × S). r.0) (with_c ∙ thrown)
            ∙ (collect_all-acc ys (ms ++ []) (c.collect s').1
                ∙ ap (λ l. l ++ (collect_all ys [] (c.collect s').1).0) (append-nil ms)),
      )

-- A sleep (of 20 ms) begins more than 30 ms before the deadline, a yield in the last 30 ms.
abbrev pub InTime : ℕ → List (ℕ × Pause) → Type 0
InTime deadline [] = Unit {0}
InTime deadline ((now, sleeps) ∷ ps) = (now + 30 < deadline) × InTime deadline ps
InTime deadline ((now, yields) ∷ ps) =
    ((now < deadline) × (deadline ≤ now + 30)) × InTime deadline ps

wait_loop-InTime : (deadline : ℕ) (clock : List ℕ) → InTime deadline (wait_loop deadline clock)
unfolding wait_loop
wait_loop-InTime deadline [] = tt
wait_loop-InTime deadline (now ∷ clock) = ground (arith, wait_loop-InTime deadline clock)

-- Whatever the clock reads, the wait of a tick sleeps only while more than 30 ms are left to its
-- deadline, one interval after the start of the tick, yields only within the last 30 ms, and makes no
-- pause at the deadline or after it.
wait_tick-InTime :
    (interval tick_start elapsed : ℕ) (clock : List ℕ)
    → InTime (tick_start + interval) (wait_tick interval tick_start elapsed clock)
unfolding wait_tick
wait_tick-InTime interval tick_start elapsed clock =
    ground (arith, wait_loop-InTime (tick_start + interval) clock)
