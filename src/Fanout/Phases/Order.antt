-- ===== src/Fanout/Phases/Order.antt =====
-- The values of one publishing thread reach a subscriber in the order in which it published them,
-- whatever calls of `Publish` other threads are in.
use mathlib.Core.List.{Sublistᴰ}
use mathlib.Core.List.Sublistᴰ
use hardware_panel.Base.{
  ℕ, zero, suc, ◌≡◌, refl, sym, ◌∙◌, ap, ◌≢◌, ◌⊎◌, Bool, true, false, List, [], ◌∷◌, ◌++◌, Option,
  none, some, arith, ◌==◌, ==_iff, Bool-cases, inl, inr, get_elem?, set, append-nil, append_assoc,
  get_elem?-set_self, get_elem?-set_ne,
}
use hardware_panel.Fanout
use hardware_panel.Fanout.Delivery.{count, get_elem?_lt}
use hardware_panel.Fanout.Stream.{received, received-append, Sublistᴰ_of_eq}
use hardware_panel.Fanout.Phases.{
  Call, Phased, Op, begins, proceeds, subscribes, pops, closes, releases, step, run, empty, proceed,
  begin_call, next_round, idle_threads,
}
use hardware_panel.Fanout.Phases.Words.{
  keep, keep-append, keep-Sublistᴰ, copies, owed_by, queued, begun, starts, published, OnlyFrom,
}
use hardware_panel.Fanout.Phases.Books.{
  books_of_step, copies-Sublistᴰ, round-owed, owed_by-set_self, owed_by-set_ne,
}
use hardware_panel.Fanout.Phases.Steps.{round_brings, call_brings, brings, step-Sublistᴰ}
use hardware_panel.Fanout.Phases.Registered.{IsRegistered, step-IsRegistered, begin-once}

module _ {A : Type 0} (p : A → Bool) (i t : ℕ) where
  -- What the thread `t` owes to `i`, of the values that pass the test.
  abbrev debt : Phased A → List A
  debt s = keep p (owed_by i (get_elem? s.threads t))

  -- The values in the calls of the other threads do not pass the test.
  abbrev IsForeign : List (Option (Call A)) → Type 0
  IsForeign ts = (u : ℕ) (k : Call A) → u ≢ t → get_elem? ts u ≡ some (some k) → p k.value ≡ false

  grows : (xs ys : List A) → Sublistᴰ xs (xs ++ ys)
  grows xs ys =
      Sublistᴰ.trans (Sublistᴰ_of_eq (sym (append-nil xs)))
        (Sublistᴰ.append (Sublistᴰ.refl xs) (Sublistᴰ.nil-sublist ys))

  begin-debt :
      (u : ℕ) (v : A) (s : Phased A)
      → IsRegistered s.registry
      → (o : Option (Option (Call A))) → get_elem? s.threads u ≡ o
      → Sublistᴰ (debt (begin_call u v o s)) (debt s ++ keep p (begun v o))
  begin-debt u v s w none e = Sublistᴰ_of_eq (sym (append-nil (debt s)))
  begin-debt u v s w (some (some k)) e = Sublistᴰ_of_eq (sym (append-nil (debt s)))
  begin-debt u v s w (some none) e = elim (Bool-cases (u == t)) [
    | inl same ↦
        let q : t ≡ u = sym ((==_iff u t).0 same) in
        rw (owed_by-set_self i s.threads t u _ same e, q, e)
          (keep-Sublistᴰ p (copies-Sublistᴰ _ v (begin-once s i w)))
    | inr other ↦ rw (owed_by-set_ne i s.threads t u _ other) (grows (debt s) (keep p (v ∷ [])))
  ]

  round-debt :
      (cap u : ℕ) (s : Phased A) (k : Call A) (is : List ℕ)
      → IsForeign s.threads
      → k.remaining ≡ is
      → get_elem? s.threads u ≡ some (some k)
      → Sublistᴰ
          (keep p (round_brings i k.value is) ++ debt (next_round cap u k.value k.held is s))
          (debt s)
  round-debt cap u s k is f m e = elim (Bool-cases (u == t)) [
    | inl same ↦ own is m same
    | inr other ↦ rw (foreign is (f u k (λ q. ground arith) e)) (left is other)
  ]
    where
      own :
          (is : List ℕ)
          → k.remaining ≡ is
          → (u == t) ≡ true
          → Sublistᴰ
              (keep p (round_brings i k.value is) ++ debt (next_round cap u k.value k.held is s))
              (debt s)
      own [] m same =
          rw (owed_by-set_self i s.threads t u none same e) (Sublistᴰ.nil-sublist (debt s))
      own (j ∷ js) m same =
          let q : t ≡ u = sym ((==_iff u t).0 same) in
          rw (owed_by-set_self i s.threads t u _ same e, q, e, m)
            (Sublistᴰ_of_eq (
              sym (keep-append p (round_brings i k.value (j ∷ js)) (copies (count i js) k.value))
              ∙ ap (keep p) (round-owed i j js k.value)))

      foreign : (is : List ℕ) → p k.value ≡ false → keep p (round_brings i k.value is) ≡ []
      foreign [] h = refl
      foreign (j ∷ js) h = ground arith

      left :
          (is : List ℕ)
          → (u == t) ≡ false
          → Sublistᴰ (debt (next_round cap u k.value k.held is s)) (debt s)
      left [] other = rw (owed_by-set_ne i s.threads t u none other) (Sublistᴰ.refl (debt s))
      left (j ∷ js) other = rw (owed_by-set_ne i s.threads t u _ other) (Sublistᴰ.refl (debt s))

  IsForeign-set :
      (ts : List (Option (Call A))) (u : ℕ) (o : Option (Call A)) {o' : Option (Call A)}
      → get_elem? ts u ≡ some o'
      → ((k : Call A) → u ≢ t → o ≡ some k → p k.value ≡ false)
      → IsForeign ts
      → IsForeign (set ts u o)
  IsForeign-set ts u o {o'} there h f u' k ne e = elim (Bool-cases (u == u')) [
    | inl same ↦
        let q : u' ≡ u = sym ((==_iff u u').0 same) in
        let now : some o ≡ some (some k) =
          sym (get_elem?-set_self ts u o (get_elem?_lt ts u o' there))
          ∙ (ap (get_elem? (set ts u o)) (sym q) ∙ e) in
        h k (ground arith) (ground arith)
    | inr other ↦ f u' k ne (sym (get_elem?-set_ne ts o (λ q. ground arith)) ∙ e)
  ]

  begin-IsForeign :
      (u : ℕ) (v : A) (s : Phased A)
      → (p v ≡ true → u ≡ t)
      → IsForeign s.threads
      → (o : Option (Option (Call A))) → get_elem? s.threads u ≡ o
      → IsForeign (begin_call u v o s).threads
  begin-IsForeign u v s h f none e = f
  begin-IsForeign u v s h f (some (some k)) e = f
  begin-IsForeign u v s h f (some none) e = IsForeign-set s.threads u _ e (λ k ne q. ground arith) f

  proceed-IsForeign :
      (cap u : ℕ) (s : Phased A)
      → IsForeign s.threads
      → (o : Option (Option (Call A))) → get_elem? s.threads u ≡ o
      → IsForeign (proceed cap u o s).threads
  proceed-IsForeign cap u s f none e = f
  proceed-IsForeign cap u s f (some none) e = f
  proceed-IsForeign cap u s f (some (some k)) e = rounds k.remaining
    where
      rounds : (is : List ℕ) → IsForeign (next_round cap u k.value k.held is s).threads
      rounds [] = IsForeign-set s.threads u none e (λ k' ne q. absurd (ground arith)) f
      rounds (j ∷ js) = IsForeign-set s.threads u _ e (λ k' ne q. ground (arith, f u k ne e)) f

  step-IsForeign :
      (cap : ℕ) (s : Phased A) (o : Op A) (os : List (Op A))
      → OnlyFrom p t (o ∷ os)
      → IsForeign s.threads
      → IsForeign (step cap s o).0.threads × OnlyFrom p t os
  unfolding step
  step-IsForeign cap s (begins u v) os h f =
      (begin-IsForeign u v s h.0 f (get_elem? s.threads u) refl, h.1)
  step-IsForeign cap s (proceeds u) os h f =
      (proceed-IsForeign cap u s f (get_elem? s.threads u) refl, h)
  step-IsForeign cap s subscribes os h f = (f, h)
  step-IsForeign cap s (pops j) os h f = (f, h)
  step-IsForeign cap s (closes j) os h f = (f, h)
  step-IsForeign cap s (releases j) os h f = (f, h)

  -- What a step brings and what is owed after it comes from what was owed and what it publishes.
  step-debt :
      (cap : ℕ) (s : Phased A) (o : Op A)
      → IsRegistered s.registry
      → IsForeign s.threads
      → Sublistᴰ (keep p (brings i s o) ++ debt (step cap s o).0) (debt s ++ keep p (starts s o))
  unfolding step
  step-debt cap s (begins u v) w f = begin-debt u v s w (get_elem? s.threads u) refl
  step-debt cap s (proceeds u) w f = paid (get_elem? s.threads u) refl
    where
      paid :
          (o : Option (Option (Call A)))
          → get_elem? s.threads u ≡ o
          → Sublistᴰ (keep p (call_brings i o) ++ debt (proceed cap u o s)) (debt s ++ [])
      paid none e = Sublistᴰ_of_eq (sym (append-nil (debt s)))
      paid (some none) e = Sublistᴰ_of_eq (sym (append-nil (debt s)))
      paid (some (some k)) e =
          Sublistᴰ.trans (round-debt cap u s k k.remaining f refl e)
            (Sublistᴰ_of_eq (sym (append-nil (debt s))))
  step-debt cap s subscribes w f = Sublistᴰ_of_eq (sym (append-nil (debt s)))
  step-debt cap s (pops j) w f = Sublistᴰ_of_eq (sym (append-nil (debt s)))
  step-debt cap s (closes j) w f = Sublistᴰ_of_eq (sym (append-nil (debt s)))
  step-debt cap s (releases j) w f = Sublistᴰ_of_eq (sym (append-nil (debt s)))

  run-in_order :
      (cap : ℕ) (s : Phased A) (os : List (Op A)) (got said : List A)
      → IsRegistered s.registry
      → IsForeign s.threads
      → OnlyFrom p t os
      → Sublistᴰ (keep p (got ++ queued i s) ++ debt s) (keep p said)
      → let (s', out) = run cap s os in
        Sublistᴰ
          (keep p (got ++ (received i out ++ queued i s')) ++ debt s')
          (keep p (said ++ published cap s os))
  unfolding run published
  run-in_order cap s [] got said w f only h = rw (append-nil said) h
  run-in_order cap s (o ∷ os) got said w f only h =
      let (s', out) = step cap s o in
      let next = step-IsForeign cap s o os only f in
      let rest =
        run-in_order cap s' os (got ++ received i out) (said ++ starts s o)
          (step-IsRegistered cap s o w) next.0 next.1
          (books_of_step p got (queued i s) (received i out) (queued i s') (brings i s o) (debt s)
            (debt s') (starts s o) said (step-Sublistᴰ cap i s o) (step-debt cap s o w f) h) in
      rw
        (
          received-append i out (run cap s' os).1,
          append_assoc (received i out) (received i (run cap s' os).1) (queued i (run cap s' os).0),
          sym (append_assoc said (starts s o) (published cap s' os)),
          sym (
              append_assoc got (received i out)
                (received i (run cap s' os).1 ++ queued i (run cap s' os).0)),
        )
        rest

module _ {A : Type 0} where
  pub idle-cases :
      (n t : ℕ)
      → (get_elem? (idle_threads {A = A} n) t ≡ none)
        ⊎ (get_elem? (idle_threads {A = A} n) t ≡ some none)
  idle-cases zero t = inl refl
  idle-cases (suc n) zero = inr refl
  idle-cases (suc n) (suc t) = idle-cases n t

  idle-owed : (n i t : ℕ) → owed_by i (get_elem? (idle_threads {A = A} n) t) ≡ []
  idle-owed n i t = elim (idle-cases n t) [ inl e ↦ rw e refl | inr e ↦ rw e refl ]

  pub empty-IsRegistered : (n : ℕ) → IsRegistered (empty {A = A} n).registry
  unfolding empty Fanout.empty
  empty-IsRegistered n = record { once = λ i. omega arith; known = λ i h. refl }

  -- With any number of threads that publish, let the values that pass a test be published by one
  -- thread `t` only. In any interleaving of the rounds of `Publish` with the other methods, what a
  -- subscriber has received of these values, followed by what waits for it, is a sublist of what
  -- the thread published: they arrive in its order, none twice.
  pub in_order_of_thread :
      (cap n : ℕ) (p : A → Bool) (t i : ℕ) (os : List (Op A))
      → OnlyFrom p t os
      → let (s, out) = run cap (empty n) os in
        Sublistᴰ (keep p (received i out ++ queued i s)) (keep p (published cap (empty n) os))
  in_order_of_thread cap n p t i os only =
      let (s, out) = run cap (empty n) os in
      Sublistᴰ.trans (grows p i t _ (keep p (owed_by i (get_elem? s.threads t)))) (
        run-in_order p i t cap (empty n) os [] [] (empty-IsRegistered n)
          (unfold empty in
            λ u k ne e. elim (idle-cases n u) [
              | inl q ↦ absurd (ground (arith, q, e))
              | inr q ↦ absurd (ground (arith, q, e))
            ])
          only (unfold empty Fanout.empty in rw (idle-owed n i t) Sublistᴰ.slnil))
