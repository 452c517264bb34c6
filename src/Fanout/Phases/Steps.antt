-- ===== src/Fanout/Phases/Steps.antt =====
-- What one step does to one subscriber.
use mathlib.Core.List.{Sublistᴰ}
use mathlib.Core.Option
use hardware_panel.Base.{
  ℕ, zero, suc, ◌≡◌, refl, sym, ◌∙◌, ap, false, List, [], ◌∷◌, ◌++◌, Option, none, some, ◌==◌,
  ==_iff, Bool-cases, inl, inr, get_elem?, append-nil, if◌then◌else◌,
}
use hardware_panel.Fanout
use hardware_panel.Fanout.{
  Subscriber, Cell, Registry, accept, accept_cell, update, pop, close, is_owned, tagged, pop_at,
}
use hardware_panel.Fanout.Delivery.{get_elem?-update}
use hardware_panel.Fanout.Stream.{
  received, waiting, pop-queue, pop_at_self, pop_at-other, accept-Sublistᴰ, Sublistᴰ_of_eq,
}
use hardware_panel.Fanout.Phases.{
  Call, Phased, Op, begins, proceeds, subscribes, pops, closes, releases, step, next_round, proceed,
  begin_call,
}
use hardware_panel.Fanout.Phases.Words.{queued}

module _ {A : Type 0} where
  -- What a step puts into the queue of `i`.
  abbrev pub round_brings : ℕ → A → List ℕ → List A
  round_brings i v [] = []
  round_brings i v (j ∷ js) = if i == j then v ∷ [] else []

  abbrev pub call_brings : ℕ → Option (Option (Call A)) → List A
  call_brings i none = []
  call_brings i (some none) = []
  call_brings i (some (some k)) = round_brings i k.value k.remaining

  abbrev pub brings : ℕ → Phased A → Op A → List A
  brings i s (begins t v) = []
  brings i s (proceeds t) = call_brings i (get_elem? s.threads t)
  brings i s subscribes = []
  brings i s (pops j) = []
  brings i s (closes j) = []
  brings i s (releases j) = []

  -- A change of an object that leaves the queue.
  waiting-update :
      (f : Cell A → Cell A) (cs : List (Cell A)) (j i : ℕ)
      → ((c : Cell A) → (f c).sub.queue ≡ c.sub.queue)
      → waiting (get_elem? (update f cs j) i) ≡ waiting (get_elem? cs i)
  waiting-update f cs j i same =
      ap waiting (get_elem?-update f cs j i)
      ∙ elim (Bool-cases (i == j)) [ inl e ↦ rw e (mapped (get_elem? cs i)) | inr e ↦ rw e refl ]
    where
      mapped : (o : Option (Cell A)) → waiting (Option.map f o) ≡ waiting o
      mapped none = refl
      mapped (some c) = same c

  waiting_grown :
      (c : Cell A)
      → c.sub.queue ≡ []
      → (cs : List (Cell A)) (i : ℕ)
      → waiting (get_elem? (cs ++ c ∷ []) i) ≡ waiting (get_elem? cs i)
  waiting_grown c e [] zero = e
  waiting_grown c e [] (suc i) = refl
  waiting_grown c e (d ∷ cs) zero = refl
  waiting_grown c e (d ∷ cs) (suc i) = waiting_grown c e cs i

  waiting-subscribe :
      (r : Registry A) (i : ℕ)
      → waiting (get_elem? (Fanout.subscribe r).0.objects i) ≡ waiting (get_elem? r.objects i)
  unfolding Fanout.subscribe
  waiting-subscribe r i = waiting_grown _ refl r.objects i

  pop_at_missing : (r : Registry A) (i : ℕ) → get_elem? r.objects i ≡ none → pop_at r i ≡ (r, none)
  unfolding pop_at
  pop_at_missing r i e = rw (e, pop_at) refl

  waiting-pop_at :
      (r : Registry A) (i j : ℕ)
      → let (r', out) = tagged j (pop_at r j) in
        received i out ++ waiting (get_elem? r'.objects i) ≡ waiting (get_elem? r.objects i)
  waiting-pop_at r i j = elim (Bool-cases (i == j)) [
    | inl same ↦
        let q : j ≡ i = sym ((==_iff i j).0 same) in rw q (popped (get_elem? r.objects i) refl)
    | inr other ↦ let p = pop_at-other r i j other in rw (p.0, p.1) refl
  ]
    where
      popped :
          (o : Option (Cell A))
          → get_elem? r.objects i ≡ o
          → received i (tagged i (pop_at r i)).1
              ++ waiting (get_elem? (tagged i (pop_at r i)).0.objects i)
            ≡ waiting (get_elem? r.objects i)
      popped none e = rw (pop_at_missing r i e) refl
      popped (some c) e = let p = pop_at_self r i c e in rw (p.0, p.1, e) (pop-queue c.sub)

  waiting-accept :
      (cap : ℕ) (v : A) (cs : List (Cell A)) (j i : ℕ)
      → Sublistᴰ
          (waiting (get_elem? (update (accept_cell cap v) cs j) i))
          (waiting (get_elem? cs i) ++ (if i == j then v ∷ [] else []))
  waiting-accept cap v cs j i = elim (Bool-cases (i == j)) [
    | inl e ↦ rw (get_elem?-update (accept_cell cap v) cs j i, e) (mapped (get_elem? cs i))
    | inr e ↦
        rw (get_elem?-update (accept_cell cap v) cs j i, e)
          (Sublistᴰ_of_eq (sym (append-nil (waiting (get_elem? cs i)))))
  ]
    where
      mapped :
          (o : Option (Cell A))
          → Sublistᴰ (waiting (Option.map (accept_cell cap v) o)) (waiting o ++ v ∷ [])
      mapped none = Sublistᴰ.cons Sublistᴰ.slnil
      mapped (some c) = accept-Sublistᴰ cap v c.sub

  proceed-queued :
      (cap t i : ℕ) (s : Phased A) (o : Option (Option (Call A)))
      → Sublistᴰ (queued i (proceed cap t o s)) (queued i s ++ call_brings i o)
  proceed-queued cap t i s none = Sublistᴰ_of_eq (sym (append-nil (queued i s)))
  proceed-queued cap t i s (some none) = Sublistᴰ_of_eq (sym (append-nil (queued i s)))
  proceed-queued cap t i s (some (some k)) = rounds k.remaining
    where
      rounds :
          (is : List ℕ)
          → Sublistᴰ
              (queued i (next_round cap t k.value k.held is s))
              (queued i s ++ round_brings i k.value is)
      rounds [] = Sublistᴰ_of_eq (sym (append-nil (queued i s)))
      rounds (j ∷ js) = waiting-accept cap k.value s.registry.objects j i

  -- What a subscriber receives in a step and has waiting afterwards comes, in that order, from what
  -- waited before and from what the step brought.
  pub step-Sublistᴰ :
      (cap i : ℕ) (s : Phased A) (o : Op A)
      → let (s', out) = step cap s o in
        Sublistᴰ (received i out ++ queued i s') (queued i s ++ brings i s o)
  unfolding step Fanout.close_at Fanout.release_at close
  step-Sublistᴰ cap i s (begins t v) = begin-queued (get_elem? s.threads t)
    where
      begin-queued :
          (o : Option (Option (Call A)))
          → Sublistᴰ (queued i (begin_call t v o s)) (queued i s ++ [])
      begin-queued none = Sublistᴰ_of_eq (sym (append-nil (queued i s)))
      begin-queued (some none) = Sublistᴰ_of_eq (sym (append-nil (queued i s)))
      begin-queued (some (some k)) = Sublistᴰ_of_eq (sym (append-nil (queued i s)))
  step-Sublistᴰ cap i s (proceeds t) = proceed-queued cap t i s (get_elem? s.threads t)
  step-Sublistᴰ cap i s subscribes =
      Sublistᴰ_of_eq (waiting-subscribe s.registry i ∙ sym (append-nil (queued i s)))
  step-Sublistᴰ cap i s (pops j) =
      Sublistᴰ_of_eq (waiting-pop_at s.registry i j ∙ sym (append-nil (queued i s)))
  step-Sublistᴰ cap i s (closes j) = Sublistᴰ_of_eq (
      waiting-update (λ c. record c { sub = close c.sub }) s.registry.objects j i (λ c. refl)
      ∙ sym (append-nil (queued i s)))
  step-Sublistᴰ cap i s (releases j) = Sublistᴰ_of_eq (
      waiting-update (λ c. record c { owned = false }) s.registry.objects j i (λ c. refl)
      ∙ sym (append-nil (queued i s)))
