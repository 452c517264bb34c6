-- ===== src/Client/Worker/Stop.antt =====
-- What a call of `Stop` waits for, and what comes after it.
use hardware_panel.Base.{
  ◌≡◌, ◌≢◌, refl, ap, sym, ◌∙◌, ◌⊎◌, inl, inr, Bool, true, false, List, [], ◌∷◌, ◌++◌,
  if◌then◌else◌, arith, Bool-cases, append_assoc, append-nil, not, subst,
}
use hardware_panel.Client.Worker.{
  Phase, read, Event, unready, no_reader, reader, end_of_stream, own, message, thread_step, Stopper,
  Worker, new_worker, start, has_ended, stop_step, Action, telemetry_steps, events_steps,
  stop_steps, act, run,
}

-- What is known of the threads, from where `Stop` stands, `running_` and the two phases.
pub Known : Stopper → Bool → Phase → Phase → Type 0
Known Stopper.idle running t e = (running ≡ true) ⊎ ((t ≡ Phase.ended) × (e ≡ Phase.ended))
Known Stopper.joining_telemetry running t e = running ≡ false
Known Stopper.joining_events running t e = (running ≡ false) × (t ≡ Phase.ended)
Known Stopper.returned running t e = (t ≡ Phase.ended) × (e ≡ Phase.ended)

abbrev pub IsConsistent : Worker → Type 0
IsConsistent w = Known w.stopper w.running w.telemetry w.events

module _ {A : Type 0} where
  -- The event lets a thread that is in `Read` go on.
  abbrev pub returns : Event A → Bool
  returns (message x) = true
  returns end_of_stream = true
  returns _ = false

  read-blocked : (e : Event A) → returns e ≡ false → read e ≡ (Phase.in_read, [])
  read-blocked unready h = refl
  read-blocked no_reader h = refl
  read-blocked reader h = refl
  read-blocked own h = refl
  read-blocked end_of_stream h = ground arith
  read-blocked (message x) h = ground arith

  Known-telemetry :
      (s : Stopper) (r : Bool) (a : Event A) (t e : Phase)
      → Known s r t e
      → Known s r (thread_step r a t).0 e
  unfolding Known thread_step
  Known-telemetry Stopper.idle r a t e (inl on) = inl on
  Known-telemetry Stopper.idle r a t e (inr (te, ee)) = inr (rw te refl, ee)
  Known-telemetry Stopper.joining_telemetry r a t e h = h
  Known-telemetry Stopper.joining_events r a t e (off, te) = (off, rw te refl)
  Known-telemetry Stopper.returned r a t e (te, ee) = (rw te refl, ee)

  Known-events :
      (s : Stopper) (r : Bool) (a : Event A) (t e : Phase)
      → Known s r t e
      → Known s r t (thread_step r a e).0
  unfolding Known thread_step
  Known-events Stopper.idle r a t e (inl on) = inl on
  Known-events Stopper.idle r a t e (inr (te, ee)) = inr (te, rw ee refl)
  Known-events Stopper.joining_telemetry r a t e h = h
  Known-events Stopper.joining_events r a t e h = h
  Known-events Stopper.returned r a t e (te, ee) = (te, rw ee refl)

has_ended_lem : (p : Phase) → has_ended p ≡ true → p ≡ Phase.ended
has_ended_lem Phase.ended h = refl
has_ended_lem Phase.outer h = ground arith
has_ended_lem Phase.inner h = ground arith
has_ended_lem Phase.in_read h = ground arith
has_ended_lem (Phase.sleeping ms) h = ground arith

stop_step-IsConsistent : (w : Worker) → IsConsistent w → IsConsistent (stop_step w)
unfolding Known stop_step
stop_step-IsConsistent w h = by_stopper w.stopper w.running w.connected w.telemetry w.events h
  where
    by_stopper :
        (s : Stopper) (r c : Bool) (t e : Phase)
        → Known s r t e
        → IsConsistent (
            stop_step
              (record { running = r; connected = c; telemetry = t; events = e; stopper = s }))
    by_stopper Stopper.idle true c t e h = refl
    by_stopper Stopper.idle false c t e (inl on) = ground arith
    by_stopper Stopper.idle false c t e (inr both) = both
    by_stopper Stopper.joining_telemetry r c t e h = elim (Bool-cases (has_ended t)) [
      | inl d ↦ rw d (h, has_ended_lem t d)
      | inr d ↦ rw d h
    ]
    by_stopper Stopper.joining_events r c t e (off, te) = elim (Bool-cases (has_ended e)) [
      | inl d ↦ rw d (te, has_ended_lem e d)
      | inr d ↦ rw d (off, te)
    ]
    by_stopper Stopper.returned r c t e h = h

abbrev pub stopped : Bool → Bool → Worker
stopped r c = record {
  running = r;
  connected = c;
  telemetry = Phase.ended;
  events = Phase.ended;
  stopper = Stopper.returned;
}

start-IsConsistent : IsConsistent (start new_worker)
unfolding start Known
start-IsConsistent = inl refl

stopped_eta :
    (w : Worker) → w.stopper ≡ Stopper.returned → IsConsistent w → w ≡ stopped w.running w.connected
unfolding Known
stopped_eta w r h =
    let both : Known Stopper.returned w.running w.telemetry w.events =
      subst (λ s. Known s w.running w.telemetry w.events) r h in
    λ i. record {
      running = w.running;
      connected = w.connected;
      telemetry = both.0 i;
      events = both.1 i;
      stopper = r i;
    }

reading-returned :
    (w : Worker) → IsConsistent w → w.events ≡ Phase.in_read → w.stopper ≢ Stopper.returned
unfolding Known
reading-returned w k h r =
    let both : Known Stopper.returned w.running w.telemetry w.events =
      subst (λ s. Known s w.running w.telemetry w.events) r k in
    let impossible = ap has_ended (sym both.1 ∙ h) in ground arith

stop_step-events : (w : Worker) → (stop_step w).events ≡ w.events
unfolding stop_step
stop_step-events w = ground arith

module _ {A B : Type 0} where
  -- The steps leave what is known of the threads true.
  act-IsConsistent : (a : Action A B) (w : Worker) → IsConsistent w → IsConsistent (act a w).0
  unfolding act
  act-IsConsistent (telemetry_steps e) w h =
      Known-telemetry w.stopper w.running e w.telemetry w.events h
  act-IsConsistent (events_steps e) w h = Known-events w.stopper w.running e w.telemetry w.events h
  act-IsConsistent stop_steps w h = stop_step-IsConsistent w h

  run-IsConsistent :
      (acts : List (Action A B)) (w : Worker) → IsConsistent w → IsConsistent (run acts w).0
  unfolding run
  run-IsConsistent [] w h = h
  run-IsConsistent (a ∷ acts) w h = run-IsConsistent acts (act a w).0 (act-IsConsistent a w h)

  act-stopped : (a : Action A B) (r c : Bool) → act a (stopped r c) ≡ (stopped r c, [])
  unfolding act thread_step stop_step
  act-stopped (telemetry_steps e) r c = refl
  act-stopped (events_steps e) r c = refl
  act-stopped stop_steps r c = refl

  run-stopped : (acts : List (Action A B)) (r c : Bool) → run acts (stopped r c) ≡ (stopped r c, [])
  unfolding run
  run-stopped [] r c = refl
  run-stopped (a ∷ acts) r c = rw (act-stopped a r c, run-stopped acts r c) refl

  run-append :
      (xs ys : List (Action A B)) (w : Worker)
      → run (xs ++ ys) w ≡ ((run ys (run xs w).0).0, (run xs w).1 ++ (run ys (run xs w).0).1)
  unfolding run
  run-append [] ys w = refl
  run-append (x ∷ xs) ys w = rw (run-append xs ys (act x w).0) (
      ap (λ l. ((run ys (run xs (act x w).0).0).0, l))
        (sym (append_assoc (act x w).1 (run xs (act x w).0).1 (run ys (run xs (act x w).0).0).1)))

  -- Whatever the threads and `Stop` did since `Start`, in any order: once `Stop` has returned, no
  -- later step emits a signal or changes the worker.
  pub stop_quiet :
      (before after : List (Action A B))
      → (run before (start new_worker)).0.stopper ≡ Stopper.returned
      → run (before ++ after) (start new_worker) ≡ run before (start new_worker)
  stop_quiet before after r =
      let w = (run before (start new_worker)).0 in
      let e = stopped_eta w r (run-IsConsistent before (start new_worker) start-IsConsistent) in
      let quiet : run after w ≡ (w, []) =
        subst (λ k. run after k ≡ (k, [])) (sym e) (run-stopped after w.running w.connected) in
      run-append before after (start new_worker)
      ∙ rw quiet (ap (λ l. (w, l)) (append-nil (run before (start new_worker)).1))

  abbrev silent : Action A B → Bool
  silent (events_steps e) = not (returns e)
  silent _ = true

  abbrev pub all_silent : List (Action A B) → Bool
  all_silent [] = true
  all_silent (a ∷ acts) = let rest = all_silent acts in if silent a then rest else false

  act-blocked :
      (a : Action A B) (w : Worker)
      → silent a ≡ true
      → w.events ≡ Phase.in_read
      → (act a w).0.events ≡ Phase.in_read
  unfolding act stop_step thread_step
  act-blocked (telemetry_steps e) w q h = h
  act-blocked (events_steps e) w q h = rw h (ap (λ r. r.0) (read-blocked e (ground arith)))
  act-blocked stop_steps w q h = stop_step-events w ∙ h

  run-blocked :
      (acts : List (Action A B)) (w : Worker)
      → all_silent acts ≡ true
      → w.events ≡ Phase.in_read
      → (run acts w).0.events ≡ Phase.in_read
  unfolding run
  run-blocked [] w q h = h
  run-blocked (a ∷ acts) w q h = elim (Bool-cases (silent a)) [
    | inl s ↦ run-blocked acts (act a w).0 (rw s at q) (act-blocked a w s h)
    | inr s ↦ let impossible = rw s at q in ground arith
  ]

  -- While the thread of the events is in `Read` and the service sends it nothing and does not end the
  -- stream, `Stop` does not return, whatever else the two threads and `Stop` do.
  pub stop_blocks :
      (before after : List (Action A B))
      → (run before (start new_worker)).0.events ≡ Phase.in_read
      → all_silent after ≡ true
      → (run (before ++ after) (start new_worker)).0.stopper ≢ Stopper.returned
  stop_blocks before after reading quiet =
      let w = (run before (start new_worker)).0 in
      reading-returned (run (before ++ after) (start new_worker)).0
        (run-IsConsistent (before ++ after) (start new_worker) start-IsConsistent)
        (ap (λ r. r.0.events) (run-append before after (start new_worker))
          ∙ run-blocked after w quiet reading)
