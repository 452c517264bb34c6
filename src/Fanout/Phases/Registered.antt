-- ===== src/Fanout/Phases/Registered.antt =====
-- Every step keeps the pointers of the registry apart.
use hardware_panel.Base.{
  ℕ, ◌≤◌, ◌≡◌, refl, sym, true, false, ◌||◌, List, [], ◌∷◌, Option, none, some, arith, Bool-cases,
  inl, inr, length, get_elem?, length-append, subst,
}
use hardware_panel.Fanout
use hardware_panel.Fanout.{
  Subscriber, Cell, Registry, accept, accept_cell, update, pop, close, is_owned, tagged, pop_at,
}
use hardware_panel.Fanout.Delivery.{count, count-append, length-update}
use hardware_panel.Fanout.WellFormed.{tagged-registry, pop_at-registry}
use hardware_panel.Fanout.Phases.{
  Call, Phased, Op, begins, proceeds, subscribes, pops, closes, releases, step, next_round, proceed,
  begin_call, lock_all, is_held,
}

-- A pointer is registered at most once, and only if its object exists.
pub record IsRegistered {A : Type 0} (r : Registry A) : Type 0 where
  pub once : (i : ℕ) → count i r.subscribers ≤ 1
  pub known : (i : ℕ) → length r.objects ≤ i → count i r.subscribers ≡ 0

module _ {A : Type 0} where
  pub count-lock_all :
      (cs : List (Cell A)) (ts : List (Option (Call A))) (is : List ℕ) (i : ℕ)
      → count i (lock_all cs ts is) ≤ count i is
  unfolding lock_all
  count-lock_all cs ts [] i = omega arith
  count-lock_all cs ts (j ∷ is) i = elim (Bool-cases (is_owned (get_elem? cs j) || is_held ts j)) [
    | inl e ↦ rw e (ground (arith, count-lock_all cs ts is i))
    | inr e ↦ rw e (ground (arith, count-lock_all cs ts is i))
  ]

  same-IsRegistered :
      (r : Registry A) (cs : List (Cell A)) (is : List ℕ)
      → length cs ≡ length r.objects
      → ((i : ℕ) → count i is ≤ count i r.subscribers)
      → IsRegistered r
      → IsRegistered (record { objects = cs; subscribers = is })
  same-IsRegistered r cs is e h w = record {
    once = λ i. omega (arith, w.once i, h i);
    known = λ i out. omega (arith, w.known i (omega arith), h i);
  }

  subscribe-IsRegistered : (r : Registry A) → IsRegistered r → IsRegistered (Fanout.subscribe r).0
  unfolding Fanout.subscribe
  subscribe-IsRegistered r w = record {
    once = λ i.
        ground (arith, w.once i, w.known i, count-append i r.subscribers (length r.objects ∷ []));
    known = λ i h. ground (
      arith,
      w.known i,
      count-append i r.subscribers (length r.objects ∷ []),
      length-append r.objects
          (record { owned = true; sub = record { queue = []; closed = false } } ∷ []),
    );
  }

  pop_at-IsRegistered :
      (r : Registry A) (i : ℕ) → IsRegistered r → IsRegistered (tagged i (pop_at r i)).0
  pop_at-IsRegistered r i w = subst IsRegistered (sym (tagged-registry i (pop_at r i))) (
      subst IsRegistered (sym (pop_at-registry r i)) (
        same-IsRegistered r (update (λ c. record c { sub = (pop c.sub).0 }) r.objects i)
          r.subscribers (length-update _ r.objects i) (λ j. omega arith) w))

  begin-IsRegistered :
      (t : ℕ) (v : A) (o : Option (Option (Call A))) (s : Phased A)
      → IsRegistered s.registry
      → IsRegistered (begin_call t v o s).registry
  begin-IsRegistered t v none s w = w
  begin-IsRegistered t v (some (some k)) s w = w
  begin-IsRegistered t v (some none) s w =
      same-IsRegistered s.registry s.registry.objects _ refl
        (count-lock_all s.registry.objects s.threads s.registry.subscribers) w

  round-IsRegistered :
      (cap t : ℕ) (v : A) (held is : List ℕ) (s : Phased A)
      → IsRegistered s.registry
      → IsRegistered (next_round cap t v held is s).registry
  round-IsRegistered cap t v held [] s w = w
  round-IsRegistered cap t v held (i ∷ is) s w =
      same-IsRegistered s.registry _ s.registry.subscribers
        (length-update (accept_cell cap v) s.registry.objects i) (λ j. omega arith) w

  proceed-IsRegistered :
      (cap t : ℕ) (o : Option (Option (Call A))) (s : Phased A)
      → IsRegistered s.registry
      → IsRegistered (proceed cap t o s).registry
  proceed-IsRegistered cap t none s w = w
  proceed-IsRegistered cap t (some none) s w = w
  proceed-IsRegistered cap t (some (some k)) s w =
      round-IsRegistered cap t k.value k.held k.remaining s w

  -- Every step keeps the pointers of the registry apart.
  pub step-IsRegistered :
      (cap : ℕ) (s : Phased A) (o : Op A)
      → IsRegistered s.registry
      → IsRegistered (step cap s o).0.registry
  unfolding step Fanout.close_at Fanout.release_at
  step-IsRegistered cap s (begins t v) w = begin-IsRegistered t v (get_elem? s.threads t) s w
  step-IsRegistered cap s (proceeds t) w = proceed-IsRegistered cap t (get_elem? s.threads t) s w
  step-IsRegistered cap s subscribes w = subscribe-IsRegistered s.registry w
  step-IsRegistered cap s (pops j) w = pop_at-IsRegistered s.registry j w
  step-IsRegistered cap s (closes j) w =
      same-IsRegistered s.registry _ s.registry.subscribers (length-update _ s.registry.objects j)
        (λ j. omega arith) w
  step-IsRegistered cap s (releases j) w =
      same-IsRegistered s.registry _ s.registry.subscribers (length-update _ s.registry.objects j)
        (λ j. omega arith) w

  pub begin-once :
      (s : Phased A) (i : ℕ)
      → IsRegistered s.registry
      → count i (lock_all s.registry.objects s.threads s.registry.subscribers) ≤ 1
  begin-once s i w =
      omega (arith, w.once i, count-lock_all s.registry.objects s.threads s.registry.subscribers i)
