-- ===== src/Fanout/Phases/Once.antt =====
-- However many threads publish at a time, nobody gets a publication twice.
use hardware_panel.Base.{
  ℕ, zero, suc, ◌+◌, ◌≤◌, ◌≡◌, refl, sym, ◌∙◌, ap, Bool, List, [], ◌∷◌, ◌++◌, Option, none, some,
  arith, get_elem?, set, append_assoc,
}
use hardware_panel.Fanout
use hardware_panel.Fanout.Delivery.{count}
use hardware_panel.Fanout.Stream.{received, received-append}
use hardware_panel.Fanout.Phases.{
  Call, Phased, Op, begins, proceeds, subscribes, pops, closes, releases, step, run, empty, proceed,
  begin_call, next_round, idle_threads,
}
use hardware_panel.Fanout.Phases.Words.{
  passing, passing-append, passing-Sublistᴰ, copies, owed, queued, begun, starts, published,
}
use hardware_panel.Fanout.Phases.Steps.{round_brings, call_brings, brings, step-Sublistᴰ}
use hardware_panel.Fanout.Phases.Registered.{IsRegistered, step-IsRegistered, begin-once}
use hardware_panel.Fanout.Phases.Books.{copies-Sublistᴰ, round-owed}
use hardware_panel.Fanout.Phases.Order.{empty-IsRegistered}

module _ {A : Type 0} (p : A → Bool) (i : ℕ) where
  -- What all calls together owe to `i`, of the values that pass the test.
  abbrev total : List (Option (Call A)) → ℕ
  total [] = 0
  total (o ∷ ts) = passing p (owed i o) + total ts

  total-set :
      (ts : List (Option (Call A))) (t : ℕ) (o o' : Option (Call A))
      → get_elem? ts t ≡ some o
      → total (set ts t o') + passing p (owed i o) ≡ total ts + passing p (owed i o')
  total-set [] t o o' e = absurd (ground arith)
  total-set (x ∷ ts) zero o o' e = let q : x ≡ o = ground arith in rw q (omega arith)
  total-set (x ∷ ts) (suc t) o o' e = omega (arith, total-set ts t o o' e)

  begin-total :
      (t : ℕ) (v : A) (s : Phased A)
      → IsRegistered s.registry
      → (o : Option (Option (Call A))) → get_elem? s.threads t ≡ o
      → total (begin_call t v o s).threads ≤ total s.threads + passing p (begun v o)
  begin-total t v s w none e = omega arith
  begin-total t v s w (some (some k)) e = omega arith
  begin-total t v s w (some none) e = omega (
    arith,
    total-set s.threads t none _ e,
    passing-Sublistᴰ p (copies-Sublistᴰ _ v (begin-once s i w)),
  )

  round-total :
      (cap t : ℕ) (s : Phased A) (k : Call A) (is : List ℕ)
      → k.remaining ≡ is
      → get_elem? s.threads t ≡ some (some k)
      → passing p (round_brings i k.value is) + total (next_round cap t k.value k.held is s).threads
        ≤ total s.threads
  round-total cap t s k [] m e = omega (arith, total-set s.threads t (some k) none e)
  round-total cap t s k (j ∷ js) m e =
      let paid : passing p (round_brings i k.value (j ∷ js))
            + passing p (copies (count i js) k.value)
          ≡ passing p (copies (count i k.remaining) k.value) =
        sym (passing-append p (round_brings i k.value (j ∷ js)) (copies (count i js) k.value))
        ∙ (ap (passing p) (round-owed i j js k.value) ∙ rw m refl) in
      omega (arith, paid, total-set s.threads t (some k) _ e)

  step-total :
      (cap : ℕ) (s : Phased A) (o : Op A)
      → IsRegistered s.registry
      → passing p (brings i s o) + total (step cap s o).0.threads
        ≤ total s.threads + passing p (starts s o)
  unfolding step
  step-total cap s (begins t v) w = omega (arith, begin-total t v s w (get_elem? s.threads t) refl)
  step-total cap s (proceeds t) w = paid (get_elem? s.threads t) refl
    where
      paid :
          (o : Option (Option (Call A)))
          → get_elem? s.threads t ≡ o
          → passing p (call_brings i o) + total (proceed cap t o s).threads ≤ total s.threads + 0
      paid none e = omega arith
      paid (some none) e = omega arith
      paid (some (some k)) e = omega (arith, round-total cap t s k k.remaining refl e)
  step-total cap s subscribes w = omega arith
  step-total cap s (pops j) w = omega arith
  step-total cap s (closes j) w = omega arith
  step-total cap s (releases j) w = omega arith

  run-once :
      (cap : ℕ) (s : Phased A) (os : List (Op A))
      → IsRegistered s.registry
      → let (s', out) = run cap s os in
        passing p (received i out ++ queued i s') + total s'.threads
        ≤ passing p (queued i s) + total s.threads + passing p (published cap s os)
  unfolding run published
  run-once cap s [] w = omega arith
  run-once cap s (o ∷ os) w =
      let (s', out) = step cap s o in
      let (s'', outs) = run cap s' os in
      rw
        (received-append i out outs, append_assoc (received i out) (received i outs) (queued i s''))
        (omega (
          arith,
          run-once cap s' os (step-IsRegistered cap s o w),
          step-total cap s o w,
          passing-Sublistᴰ p (step-Sublistᴰ cap i s o),
          passing-append p (received i out) (queued i s'),
          passing-append p (queued i s) (brings i s o),
          passing-append p (received i out) (received i outs ++ queued i s''),
          passing-append p (starts s o) (published cap s' os),
        ))

module _ {A : Type 0} where
  total-idle : (p : A → Bool) (i n : ℕ) → total p i (idle_threads n) ≡ 0
  total-idle p i zero = refl
  total-idle p i (suc n) = omega (arith, total-idle p i n)

  -- With any number of threads that publish, in any interleaving of the rounds of `Publish` with the
  -- other methods, for every test on values: what a subscriber has received and what waits for it
  -- holds no more values that pass than were published.
  pub none_twice :
      (cap n : ℕ) (p : A → Bool) (i : ℕ) (os : List (Op A))
      → let (s, out) = run cap (empty n) os in
        passing p (received i out ++ queued i s) ≤ passing p (published cap (empty n) os)
  none_twice cap n p i os =
      let idle : total p i (empty n).threads ≡ 0 = unfold empty in total-idle p i n in
      let nothing : passing p (queued i (empty n)) ≡ 0 = unfold empty Fanout.empty in refl in
      omega (arith, idle, nothing, run-once p i cap (empty n) os (empty-IsRegistered n))
