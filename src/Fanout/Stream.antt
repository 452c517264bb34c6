-- ===== src/Fanout/Stream.antt =====
-- What one subscriber receives, whatever the other threads do in between.
use mathlib.Core.List.{Sublistᴰ}
use mathlib.Core.List.Sublistᴰ
use hardware_panel.Base.{
  get_elem?-set_self, get_elem?-set_ne, ap₂, ℕ, ◌≡◌, refl, ap, sym, ◌∙◌, List, [], ◌∷◌, ◌++◌,
  Option, none, subst, some, arith, leb, ◌==◌, ==_iff, Bool-cases, Option-cases, inl, inr, false,
  length, get_elem?, drop, append_assoc, append-nil, if◌then◌else◌, get_elem?-append_left,
}
use hardware_panel.Fanout.{
  Subscriber, Cell, Registry, Op, publishes, subscribes, pops, closes, releases, pop, close, accept,
  subscribe, pop_at, close_at, release_at, tagged, step, run,
}
use hardware_panel.Fanout.Delivery.{get_elem?_lt, IsWellFormed, publish_isolated, get_elem?-update}
use hardware_panel.Fanout.WellFormed.{step-IsWellFormed}

module _ {A : Type 0} where
  -- The values that a sequence of steps publishes.
  abbrev pub published : List (Op A) → List A
  published [] = []
  published (publishes v ∷ os) = v ∷ published os
  published (subscribes ∷ os) = published os
  published (pops i ∷ os) = published os
  published (closes i ∷ os) = published os
  published (releases i ∷ os) = published os

  -- What was handed out to the subscriber `i`.
  abbrev pub received : ℕ → List (ℕ × A) → List A
  received i [] = []
  received i ((j, x) ∷ out) = if i == j then x ∷ received i out else received i out

  abbrev pub waiting : Option (Cell A) → List A
  waiting none = []
  waiting (some c) = c.sub.queue

  pub received-append :
      (i : ℕ) (xs ys : List (ℕ × A)) → received i (xs ++ ys) ≡ received i xs ++ received i ys
  received-append i [] ys = refl
  received-append i ((j, x) ∷ xs) ys = ground (arith, received-append i xs ys)

  -- The steps of the whole registry, as one object sees them.
  unfoldable pub cell_step : ℕ → ℕ → Op A → Cell A → Cell A × List A
  cell_step cap i (publishes v) c =
      (if c.owned then record c { sub = accept cap v c.sub } else c, [])
  cell_step cap i subscribes c = (c, [])
  cell_step cap i (pops j) c =
      if i == j
      then (record c { sub = (pop c.sub).0 }, elim (pop c.sub).1 [ none ↦ [] | some x ↦ x ∷ [] ])
      else (c, [])
  cell_step cap i (closes j) c = (if i == j then record c { sub = close c.sub } else c, [])
  cell_step cap i (releases j) c = (if i == j then record c { owned = false } else c, [])

  pub pop_at_self :
      (r : Registry A) (i : ℕ) (c : Cell A)
      → get_elem? r.objects i ≡ some c
      → (get_elem? (tagged i (pop_at r i)).0.objects i ≡ some (record c { sub = (pop c.sub).0 }))
        × (received i (tagged i (pop_at r i)).1
            ≡ elim (pop c.sub).1 [ none ↦ [] | some x ↦ x ∷ [] ])
  unfolding pop_at
  pop_at_self r i c e = elim (Option-cases (pop c.sub).1) [
    | inl n ↦
        rw (e, pop_at, n) (get_elem?-set_self r.objects i _ (get_elem?_lt r.objects i c e), refl)
    | inr (x, s) ↦
        rw (e, pop_at, s)
          (get_elem?-set_self r.objects i _ (get_elem?_lt r.objects i c e), ground arith)
  ]

  pub pop_at-other :
      (r : Registry A) (i j : ℕ)
      → (i == j) ≡ false
      → (get_elem? (tagged j (pop_at r j)).0.objects i ≡ get_elem? r.objects i)
        × (received i (tagged j (pop_at r j)).1 ≡ [])
  unfolding pop_at
  pop_at-other r i j ne = elim (Option-cases (get_elem? r.objects j)) [
    | inl n ↦ rw (n, pop_at) (refl, refl)
    | inr (c, e) ↦ elim (Option-cases (pop c.sub).1) [
      | inl n ↦ rw (e, pop_at, n) (get_elem?-set_ne r.objects _ (λ q. ground arith), refl)
      | inr (x, s) ↦ rw (e, pop_at, s) (get_elem?-set_ne r.objects _ (λ q. ground arith), rw ne)
    ]
  ]

  pub step-cell :
      (cap : ℕ) (r : Registry A) (o : Op A) (i : ℕ) (c : Cell A)
      → IsWellFormed r
      → get_elem? r.objects i ≡ some c
      → (get_elem? (step cap r o).0.objects i ≡ some (cell_step cap i o c).0)
        × (received i (step cap r o).1 ≡ (cell_step cap i o c).1)
  unfolding step cell_step subscribe close_at release_at
  step-cell cap r (publishes v) i c w e = (publish_isolated cap v r i c w e, refl)
  step-cell cap r subscribes i c w e =
      (get_elem?-append_left r.objects _ i (get_elem?_lt r.objects i c e) ∙ e, refl)
  step-cell cap r (pops j) i c w e = elim (Bool-cases (i == j)) [
    | inl same ↦ let q : j ≡ i = sym ((==_iff i j).0 same) in rw (same, q) (pop_at_self r i c e)
    | inr other ↦ let p = pop_at-other r i j other in rw other (p.0 ∙ e, p.1)
  ]
  step-cell cap r (closes j) i c w e =
      ((get_elem?-update (λ c. record c { sub = close c.sub }) r.objects j i) ∙ ground arith, refl)
  step-cell cap r (releases j) i c w e =
      ((get_elem?-update (λ c. record c { owned = false }) r.objects j i) ∙ ground arith, refl)

  -- A run of one object alone.
  unfoldable pub cell_run : ℕ → ℕ → List (Op A) → Cell A → Cell A × List A
  cell_run cap i [] c = (c, [])
  cell_run cap i (o ∷ os) c =
      let (c', out) = cell_step cap i o c in
      let (c'', outs) = cell_run cap i os c' in (c'', out ++ outs)

  pub run-cell :
      (cap : ℕ) (r : Registry A) (os : List (Op A)) (i : ℕ) (c : Cell A)
      → IsWellFormed r
      → get_elem? r.objects i ≡ some c
      → (get_elem? (run cap r os).0.objects i ≡ some (cell_run cap i os c).0)
        × (received i (run cap r os).1 ≡ (cell_run cap i os c).1)
  unfolding run cell_run
  run-cell cap r [] i c w e = (e, refl)
  run-cell cap r (o ∷ os) i c w e =
      let s = step-cell cap r o i c w e in
      let t =
        run-cell cap (step cap r o).0 os i (cell_step cap i o c).0 (step-IsWellFormed cap r o w)
          s.0 in
      (t.0, received-append i (step cap r o).1 (run cap (step cap r o).0 os).1 ∙ ap₂ ◌++◌ s.1 t.1)

-- Sublists, as derivations.
module _ {A : Type 0} where
  pub Sublistᴰ_of_eq : {xs ys : List A} → xs ≡ ys → Sublistᴰ xs ys
  Sublistᴰ_of_eq {xs} e = subst (Sublistᴰ xs) e (Sublistᴰ.refl xs)

  drop-one-Sublistᴰ : (xs : List A) → Sublistᴰ (drop 1 xs) xs
  drop-one-Sublistᴰ [] = Sublistᴰ.slnil
  drop-one-Sublistᴰ (x ∷ xs) = Sublistᴰ.cons (Sublistᴰ.refl xs)

module _ {A : Type 0} where
  pub accept-Sublistᴰ :
      (cap : ℕ) (v : A) (s : Subscriber A) → Sublistᴰ (accept cap v s).queue (s.queue ++ v ∷ [])
  unfolding accept
  accept-Sublistᴰ cap v s = elim (Bool-cases s.closed) [
    | inl e ↦ rw e (
        subst (λ l. Sublistᴰ l (s.queue ++ v ∷ [])) (append-nil s.queue)
          (Sublistᴰ.append (Sublistᴰ.refl s.queue) (Sublistᴰ.cons Sublistᴰ.slnil)))
    | inr e ↦ elim (Bool-cases (leb cap (length s.queue))) [
      | inl f ↦ rw (e, f) (Sublistᴰ.append (drop-one-Sublistᴰ s.queue) (Sublistᴰ.refl (v ∷ [])))
      | inr f ↦ rw (e, f) (Sublistᴰ.refl (s.queue ++ v ∷ []))
    ]
  ]

  pub pop-queue :
      (s : Subscriber A)
      → (elim (pop s).1 [ none ↦ [] | some x ↦ x ∷ [] ]) ++ (pop s).0.queue ≡ s.queue
  unfolding pop
  pop-queue s = pop-queue_cases s s.queue refl
    where
      pop-queue_cases :
          (s : Subscriber A) (q : List A)
          → s.queue ≡ q
          → (elim (pop s).1 [ none ↦ [] | some x ↦ x ∷ [] ]) ++ (pop s).0.queue ≡ s.queue
      pop-queue_cases s [] e = ground (arith, e)
      pop-queue_cases s (x ∷ q) e = ground (arith, e)

  -- What one step adds to what the object may still hand out.
  cell_step-Sublistᴰ :
      (cap i : ℕ) (o : Op A) (c : Cell A)
      → Sublistᴰ
          ((cell_step cap i o c).1 ++ (cell_step cap i o c).0.sub.queue)
          (c.sub.queue ++ published (o ∷ []))
  unfolding cell_step close
  cell_step-Sublistᴰ cap i (publishes v) c = elim (Bool-cases c.owned) [
    | inl e ↦ rw e (accept-Sublistᴰ cap v c.sub)
    | inr e ↦ rw e (
        subst (λ l. Sublistᴰ l (c.sub.queue ++ v ∷ [])) (append-nil c.sub.queue)
          (Sublistᴰ.append (Sublistᴰ.refl c.sub.queue) (Sublistᴰ.cons Sublistᴰ.slnil)))
  ]
  cell_step-Sublistᴰ cap i subscribes c = Sublistᴰ_of_eq (sym (append-nil c.sub.queue))
  cell_step-Sublistᴰ cap i (pops j) c = elim (Bool-cases (i == j)) [
    | inl e ↦ rw e (Sublistᴰ_of_eq (pop-queue c.sub ∙ sym (append-nil c.sub.queue)))
    | inr e ↦ rw e (Sublistᴰ_of_eq (sym (append-nil c.sub.queue)))
  ]
  cell_step-Sublistᴰ cap i (closes j) c =
      Sublistᴰ_of_eq (ground arith ∙ sym (append-nil c.sub.queue))
  cell_step-Sublistᴰ cap i (releases j) c =
      Sublistᴰ_of_eq (ground arith ∙ sym (append-nil c.sub.queue))

  published-cons :
      (o : Op A) (os : List (Op A)) → published (o ∷ os) ≡ published (o ∷ []) ++ published os
  published-cons (publishes v) os = refl
  published-cons subscribes os = refl
  published-cons (pops i) os = refl
  published-cons (closes i) os = refl
  published-cons (releases i) os = refl

  pub cell_run-Sublistᴰ :
      (cap i : ℕ) (os : List (Op A)) (c : Cell A)
      → Sublistᴰ
          ((cell_run cap i os c).1 ++ (cell_run cap i os c).0.sub.queue)
          (c.sub.queue ++ published os)
  unfolding cell_run
  cell_run-Sublistᴰ cap i [] c = Sublistᴰ_of_eq (sym (append-nil c.sub.queue))
  cell_run-Sublistᴰ cap i (o ∷ os) c =
      let c' = (cell_step cap i o c).0 in
      let out = (cell_step cap i o c).1 in
      let rest = cell_run-Sublistᴰ cap i os c' in
      let here = cell_step-Sublistᴰ cap i o c in
      Sublistᴰ.trans
        (Sublistᴰ_of_eq
          (append_assoc out (cell_run cap i os c').1 (cell_run cap i os c').0.sub.queue))
        (Sublistᴰ.trans (Sublistᴰ.append (Sublistᴰ.refl out) rest) (
          Sublistᴰ.trans (Sublistᴰ_of_eq (sym (append_assoc out c'.sub.queue (published os)))) (
            Sublistᴰ.trans (Sublistᴰ.append here (Sublistᴰ.refl (published os))) (
              Sublistᴰ_of_eq (
                append_assoc c.sub.queue (published (o ∷ [])) (published os)
                ∙ ap (◌++◌ c.sub.queue) (sym (published-cons o os)))))))
