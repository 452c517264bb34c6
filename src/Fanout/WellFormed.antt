-- ===== src/Fanout/WellFormed.antt =====
-- Every step keeps a registry well-formed.
use mathlib.Core.Option
use native.Mathlib.Decide.{dec_lt}
use hardware_panel.Base.{
  subst, ◌⊎◌, ℕ, ◌≡◌, refl, sym, ◌∙◌, List, [], ◌∷◌, ◌++◌, Option, none, some, arith, ◌==◌,
  Bool-cases, Option-cases, inl, inr, true, false, length, get_elem?, length-append, if◌then◌else◌,
  get_elem?-append_left,
}
use hardware_panel.Fanout.{
  Cell, Registry, Op, publishes, subscribes, pops, closes, releases, pop, close, empty, subscribe,
  is_owned, live, update, deliver, publish, pop_at, close_at, release_at, tagged, step, run,
}
use hardware_panel.Fanout.Delivery.{
  count, count-append, IsWellFormed, get_elem?_ge, length-update, get_elem?-update, count-live,
  deliver-other, length-deliver, publish_isolated,
}

module _ {A : Type 0} where
  publish-IsWellFormed :
      (cap : ℕ) (v : A) (r : Registry A) → IsWellFormed r → IsWellFormed (publish cap v r)
  unfolding publish is_owned
  publish-IsWellFormed cap v r w = record {
    once = λ i. ground (arith, w.once i, count-live r.objects r.subscribers i);
    known = λ i h. ground (
      arith,
      w.known i (omega (arith, length-deliver cap v targets r.objects)),
      count-live r.objects r.subscribers i,
    );
    listed = λ i c e held. after i c e held (Option-cases (get_elem? r.objects i));
  }
    where
      targets : List ℕ
      targets = live r.objects r.subscribers

      after :
          (i : ℕ) (c : Cell A)
          → get_elem? (deliver cap v targets r.objects) i ≡ some c
          → c.owned ≡ true
          → (get_elem? r.objects i ≡ none) ⊎ ((d : Cell A) × (get_elem? r.objects i ≡ some d))
          → count i targets ≡ 1
      after i c e held (inl missing) = absurd (
          ground (
            arith,
            e,
            deliver-other cap v targets r.objects i
                (count-live r.objects r.subscribers i ∙ rw (missing, is_owned) refl),
            missing,
          ))
      after i c e held (inr (d, there)) =
          let kept = publish_isolated cap v r i d w there in
          elim (Bool-cases d.owned) [
            | inl held' ↦
                count-live r.objects r.subscribers i
                ∙ rw (there, is_owned, held') (w.listed i d there held')
            | inr gone' ↦ ground (arith, e, held, kept, gone')
          ]

  -- A change of one object that does not make it owned.
  update-IsWellFormed :
      (f : Cell A → Cell A) (r : Registry A) (j : ℕ)
      → ((c : Cell A) → (f c).owned ≡ true → c.owned ≡ true)
      → IsWellFormed r
      → IsWellFormed (record r { objects = update f r.objects j })
  update-IsWellFormed f r j keep w = record {
    once = w.once;
    known = λ i h. w.known i (omega (arith, length-update f r.objects j));
    listed = λ i c e held.
        after i c held (get_elem? r.objects i) refl (sym (get_elem?-update f r.objects j i) ∙ e);
  }
    where
      after :
          (i : ℕ) (c : Cell A)
          → c.owned ≡ true
          → (o : Option (Cell A)) → get_elem? r.objects i ≡ o
          → (if i == j then Option.map f (get_elem? r.objects i) else get_elem? r.objects i)
            ≡ some c
          → count i r.subscribers ≡ 1
      after i c held none there e = absurd (ground arith)
      after i c held (some d) there e = ground (arith, w.listed i d there, keep d)

  subscribe-IsWellFormed : (r : Registry A) → IsWellFormed r → IsWellFormed (subscribe r).0
  unfolding subscribe
  subscribe-IsWellFormed r w = record {
    once = λ i.
        ground (arith, w.once i, w.known i, count-append i r.subscribers (length r.objects ∷ []));
    known = λ i h. ground (
      arith,
      w.known i,
      count-append i r.subscribers (length r.objects ∷ []),
      length-append r.objects (fresh ∷ []),
    );
    listed = λ i c e held. elim (dec_lt i (length r.objects)) [
      | yes p ↦ ground (
        arith,
        w.listed i c (sym (get_elem?-append_left r.objects (fresh ∷ []) i p) ∙ e) held,
        count-append i r.subscribers (length r.objects ∷ []),
      )
      | no p ↦ elim (Bool-cases (i == length r.objects)) [
        | inl same ↦ ground (arith, w.known i, count-append i r.subscribers (length r.objects ∷ []))
        | inr other ↦ absurd (
            ground (
              arith,
              e,
              get_elem?_ge (r.objects ++ fresh ∷ []) i
                  (ground (arith, length-append r.objects (fresh ∷ []))),
            ))
      ]
    ];
  }
    where
      fresh : Cell A
      fresh = record { owned = true; sub = record { queue = []; closed = false } }

  pub pop_at-registry :
      (r : Registry A) (i : ℕ)
      → (pop_at r i).0
        ≡ record r { objects = update (λ c. record c { sub = (pop c.sub).0 }) r.objects i }
  unfolding pop_at update
  pop_at-registry r i = ground arith

  pub empty-IsWellFormed : IsWellFormed {A = A} empty
  unfolding empty
  empty-IsWellFormed = record {
    once = λ i. omega arith;
    known = λ i h. refl;
    listed = λ i c e held. absurd (ground arith);
  }

  pub tagged-registry : (i : ℕ) (x : Registry A × Option A) → (tagged i x).0 ≡ x.0
  tagged-registry i (r, none) = refl
  tagged-registry i (r, some x) = refl

  -- Every step of every thread keeps the registry well-formed.
  pub step-IsWellFormed :
      (cap : ℕ) (r : Registry A) (o : Op A) → IsWellFormed r → IsWellFormed (step cap r o).0
  unfolding step close_at release_at
  step-IsWellFormed cap r (publishes v) w = publish-IsWellFormed cap v r w
  step-IsWellFormed cap r subscribes w = subscribe-IsWellFormed r w
  step-IsWellFormed cap r (pops i) w =
      subst IsWellFormed (sym (tagged-registry i (pop_at r i) ∙ pop_at-registry r i))
        (update-IsWellFormed (λ c. record c { sub = (pop c.sub).0 }) r i (λ c h. h) w)
  step-IsWellFormed cap r (closes i) w =
      update-IsWellFormed (λ c. record c { sub = close c.sub }) r i (λ c h. h) w
  step-IsWellFormed cap r (releases i) w =
      update-IsWellFormed (λ c. record c { owned = false }) r i (λ c h. cc) w

  -- So does every history of steps.
  pub run-IsWellFormed :
      (cap : ℕ) (r : Registry A) (os : List (Op A)) → IsWellFormed r → IsWellFormed (run cap r os).0
  unfolding run
  run-IsWellFormed cap r [] w = w
  run-IsWellFormed cap r (o ∷ os) w =
      run-IsWellFormed cap (step cap r o).0 os (step-IsWellFormed cap r o w)
