-- ===== src/Fanout/Promises.antt =====
-- What a subscriber is promised: order without repetition, a bounded queue, and no loss in a burst
-- that fits the queue.
use mathlib.Core.List.{Sublistᴰ}
use mathlib.Core.List.Sublistᴰ
use hardware_panel.Base.{
  ℕ, ◌+◌, ◌≤◌, ◌<◌, ◌≡◌, ◌≢◌, refl, ap, sym, ◌∙◌, ◌⊎◌, List, [], ◌∷◌, ◌++◌, none, some, arith, ◌==◌,
  ==_iff, ==_ne, Bool-cases, inl, inr, true, false, length, get_elem?, drop, length-append,
  append_assoc, append-nil, length-drop, get_elem?-append_right,
}
use hardware_panel.Fanout.{
  Subscriber, Cell, Registry, Op, publishes, subscribes, pops, closes, releases, pop, close, accept,
  empty, subscribe, publish, pop_at, close_at, release_at, step, run,
}
use hardware_panel.Fanout.Delivery.{
  get_elem?_ge, length-deliver, get_elem?-none, length-update, IsWellFormed,
}
use hardware_panel.Fanout.WellFormed.{empty-IsWellFormed, step-IsWellFormed, run-IsWellFormed}
use hardware_panel.Fanout.Stream.{
  published, received, waiting, cell_step, cell_run, run-cell, cell_run-Sublistᴰ, pop-queue,
  received-append, pop_at-other,
}

module _ {A : Type 0} where
  -- A step creates no object in place of another, and gives nothing to one that does not exist.
  step-missing :
      (cap : ℕ) (r : Registry A) (o : Op A) (i : ℕ)
      → get_elem? r.objects i ≡ none
      → ((get_elem? (step cap r o).0.objects i ≡ none)
          ⊎ (get_elem? (step cap r o).0.objects i
              ≡ some (record { owned = true; sub = record { queue = []; closed = false } })))
        × (received i (step cap r o).1 ≡ [])
  unfolding step publish subscribe close_at release_at pop_at
  step-missing cap r (publishes v) i e = (
    inl (
        get_elem?_ge _ i
          (omega (arith, length-deliver cap v _ r.objects, get_elem?-none r.objects i e))),
    refl,
  )
  step-missing cap r subscribes i e = (
    elim (Bool-cases (i == length r.objects)) [
      | inl same ↦
          let q : i ≡ length r.objects + 0 = ground arith in
          inr (rw q (get_elem?-append_right r.objects _ 0))
      | inr other ↦ inl (
          get_elem?_ge _ i (
            ground (
              arith,
              length-append r.objects
                  (record { owned = true; sub = record { queue = []; closed = false } } ∷ []),
              get_elem?-none r.objects i e,
            )))
    ],
    refl,
  )
  step-missing cap r (pops j) i e = elim (Bool-cases (i == j)) [
    | inl same ↦ let q : j ≡ i = sym ((==_iff i j).0 same) in rw (q, e, pop_at) (inl e, refl)
    | inr other ↦ let p = pop_at-other r i j other in (inl (p.0 ∙ e), p.1)
  ]
  step-missing cap r (closes j) i e = (
    inl (
        get_elem?_ge _ i (
          omega (
            arith,
            length-update (λ c. record c { sub = close c.sub }) r.objects j,
            get_elem?-none r.objects i e,
          ))),
    refl,
  )
  step-missing cap r (releases j) i e = (
    inl (
        get_elem?_ge _ i (
          omega (
            arith,
            length-update (λ c. record c { owned = false }) r.objects j,
            get_elem?-none r.objects i e,
          ))),
    refl,
  )

  published_later : (o : Op A) (os : List (Op A)) → Sublistᴰ (published os) (published (o ∷ os))
  published_later (publishes v) os = Sublistᴰ.cons (Sublistᴰ.refl (published os))
  published_later subscribes os = Sublistᴰ.refl (published os)
  published_later (pops i) os = Sublistᴰ.refl (published os)
  published_later (closes i) os = Sublistᴰ.refl (published os)
  published_later (releases i) os = Sublistᴰ.refl (published os)

  missing-in_order :
      (cap : ℕ) (r : Registry A) (os : List (Op A)) (i : ℕ)
      → IsWellFormed r
      → get_elem? r.objects i ≡ none
      → Sublistᴰ
          (received i (run cap r os).1 ++ waiting (get_elem? (run cap r os).0.objects i))
          (published os)
  unfolding run
  missing-in_order cap r [] i w e = rw e Sublistᴰ.slnil
  missing-in_order cap r (o ∷ os) i w e =
      let r' = (step cap r o).0 in
      let w' = step-IsWellFormed cap r o w in
      let gone = step-missing cap r o i e in
      let tail : Sublistᴰ
          (received i (run cap r' os).1 ++ waiting (get_elem? (run cap r' os).0.objects i))
          (published os) =
        elim gone.0 [
          | inl n ↦ missing-in_order cap r' os i w' n
          | inr s ↦
              let p = run-cell cap r' os i _ w' s in
              rw (p.0, p.1)
                (cell_run-Sublistᴰ cap i os
                  (record { owned = true; sub = record { queue = []; closed = false } }))
        ] in
      Sublistᴰ.trans (rw (received-append i (step cap r o).1 (run cap r' os).1, gone.1) tail)
        (published_later o os)

  -- In any history of publications, subscriptions, pops, closes and releases, what a subscriber has
  -- received, followed by what waits in its queue, is a sublist of the published values: they
  -- reach it in the order of publication, none twice and none made up.
  pub in_order :
      (cap : ℕ) (os : List (Op A)) (i : ℕ)
      → let (r, out) = run cap empty os in
        Sublistᴰ (received i out ++ waiting (get_elem? r.objects i)) (published os)
  in_order cap os i = missing-in_order cap empty os i empty-IsWellFormed (unfold empty in refl)

  cell_step-bounded :
      (cap i : ℕ) (o : Op A) (c : Cell A)
      → 0 < cap
      → length c.sub.queue ≤ cap
      → length (cell_step cap i o c).0.sub.queue ≤ cap
  unfolding cell_step accept close
  cell_step-bounded cap i (publishes v) c pos h = ground (
    arith,
    length-append (drop 1 c.sub.queue) (v ∷ []),
    length-append c.sub.queue (v ∷ []),
    length-drop 1 c.sub.queue,
  )
  cell_step-bounded cap i subscribes c pos h = h
  cell_step-bounded cap i (pops j) c pos h = ground (
    arith,
    ap length (pop-queue c.sub),
    length-append (elim (pop c.sub).1 [ none ↦ [] | some x ↦ x ∷ [] ]) (pop c.sub).0.queue,
  )
  cell_step-bounded cap i (closes j) c pos h = ground arith
  cell_step-bounded cap i (releases j) c pos h = ground arith

  cell_run-bounded :
      (cap i : ℕ) (os : List (Op A)) (c : Cell A)
      → 0 < cap
      → length c.sub.queue ≤ cap
      → length (cell_run cap i os c).0.sub.queue ≤ cap
  unfolding cell_run
  cell_run-bounded cap i [] c pos h = h
  cell_run-bounded cap i (o ∷ os) c pos h =
      cell_run-bounded cap i os (cell_step cap i o c).0 pos (cell_step-bounded cap i o c pos h)

  missing-bounded :
      (cap : ℕ) (r : Registry A) (os : List (Op A)) (i : ℕ)
      → 0 < cap
      → IsWellFormed r
      → get_elem? r.objects i ≡ none
      → length (waiting (get_elem? (run cap r os).0.objects i)) ≤ cap
  unfolding run
  missing-bounded cap r [] i pos w e = rw e (omega arith)
  missing-bounded cap r (o ∷ os) i pos w e =
      let r' = (step cap r o).0 in
      let w' = step-IsWellFormed cap r o w in
      elim (step-missing cap r o i e).0 [
        | inl n ↦ missing-bounded cap r' os i pos w' n
        | inr s ↦ rw (run-cell cap r' os i _ w' s).0 (cell_run-bounded cap i os _ pos (omega arith))
      ]

  -- With a positive capacity no subscriber's queue ever holds more than the capacity, whatever is
  -- published and however slow the subscriber is.
  pub queue_bounded :
      (cap : ℕ) (os : List (Op A)) (i : ℕ)
      → 0 < cap
      → length (waiting (get_elem? (run cap empty os).0.objects i)) ≤ cap
  queue_bounded cap os i pos =
      missing-bounded cap empty os i pos empty-IsWellFormed (unfold empty in refl)

  -- No step of the sequence closes `i` or ends its owner's pointer.
  abbrev pub Keeps : ℕ → List (Op A) → Type 0
  Keeps i [] = Unit {0}
  Keeps i (publishes v ∷ os) = Keeps i os
  Keeps i (subscribes ∷ os) = Keeps i os
  Keeps i (pops j ∷ os) = Keeps i os
  Keeps i (closes j ∷ os) = (i ≢ j) × Keeps i os
  Keeps i (releases j ∷ os) = (i ≢ j) × Keeps i os

  pop-open : (s : Subscriber A) → (pop s).0.closed ≡ s.closed
  unfolding pop
  pop-open s = ground arith

  pub accept-room :
      (cap : ℕ) (v : A) (s : Subscriber A)
      → s.closed ≡ false
      → length s.queue < cap
      → accept cap v s ≡ record s { queue = s.queue ++ v ∷ [] }
  unfolding accept
  accept-room cap v s open' h = ground arith

  cell_run_burst :
      (cap i : ℕ) (os : List (Op A)) (c : Cell A)
      → c.owned ≡ true
      → c.sub.closed ≡ false
      → Keeps i os
      → length c.sub.queue + length (published os) ≤ cap
      → (cell_run cap i os c).1 ++ (cell_run cap i os c).0.sub.queue ≡ c.sub.queue ++ published os
  unfolding cell_run cell_step
  cell_run_burst cap i [] c held opened k h = sym (append-nil c.sub.queue)
  cell_run_burst cap i (publishes v ∷ os) c held opened k h =
      let grown : Subscriber A = record c.sub { queue = c.sub.queue ++ v ∷ [] } in
      rw (held, accept-room cap v c.sub opened (omega arith))
        (cell_run_burst cap i os (record { owned = true; sub = grown }) refl opened k
            (omega (arith, length-append c.sub.queue (v ∷ [])))
          ∙ append_assoc c.sub.queue (v ∷ []) (published os))
  cell_run_burst cap i (subscribes ∷ os) c held opened k h =
      cell_run_burst cap i os c held opened k h
  cell_run_burst cap i (pops j ∷ os) c held opened k h = elim (Bool-cases (i == j)) [
    | inl e ↦
        let out : List A = elim (pop c.sub).1 [ none ↦ [] | some x ↦ x ∷ [] ] in
        let c' : Cell A = record c { sub = (pop c.sub).0 } in
        rw e (
          append_assoc out (cell_run cap i os c').1 (cell_run cap i os c').0.sub.queue
          ∙ (ap (◌++◌ out) (
                cell_run_burst cap i os c' held (pop-open c.sub ∙ opened) k (
                  omega
                    (arith, ap length (pop-queue c.sub), length-append out (pop c.sub).0.queue)))
              ∙ (sym (append_assoc out (pop c.sub).0.queue (published os))
                  ∙ ap (λ l. l ++ published os) (pop-queue c.sub))))
    | inr e ↦ rw e (cell_run_burst cap i os c held opened k h)
  ]
  cell_run_burst cap i (closes j ∷ os) c held opened k h =
      rw (==_ne i j k.0) (cell_run_burst cap i os c held opened k.1 h)
  cell_run_burst cap i (releases j ∷ os) c held opened k h =
      rw (==_ne i j k.0) (cell_run_burst cap i os c held opened k.1 h)

  -- From any state that the registry can reach, a subscriber that stays open and owned loses nothing
  -- in a stretch of steps that publishes no more values than its queue has room for: what it
  -- receives, followed by what waits for it at the end, is its queue followed by those values.
  pub burst_kept :
      (cap : ℕ) (before os : List (Op A)) (i : ℕ) (c : Cell A)
      → get_elem? (run cap empty before).0.objects i ≡ some c
      → c.owned ≡ true
      → c.sub.closed ≡ false
      → Keeps i os
      → length c.sub.queue + length (published os) ≤ cap
      → let (r, out) = run cap (run cap empty before).0 os in
        received i out ++ waiting (get_elem? r.objects i) ≡ c.sub.queue ++ published os
  burst_kept cap before os i c e held opened k h =
      let p =
        run-cell cap (run cap empty before).0 os i c
          (run-IsWellFormed cap empty before empty-IsWellFormed) e in
      rw (p.0, p.1) (cell_run_burst cap i os c held opened k h)
