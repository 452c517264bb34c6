-- ===== src/Controller/Startup.antt =====
-- Controls that arrive during a slow start are not lost and not clobbered.
use hardware_panel.Base.{
  Bool, true, false, ◌||◌, ◌≡◌, refl, sym, ◌∙◌, inl, inr, List, [], ◌∷◌, ◌++◌, if◌then◌else◌, arith,
  Bool-cases,
}
use hardware_panel.Controller.{
  ServiceState, Control, Effect, report, on_start, on_stop, on_pause, Handlers, Controller, new,
  report_state, called, handle, handle_all, finalize_start, service_main_start, service_main,
}

abbrev pub is_stop : Control → Bool
is_stop Control.stop = true
is_stop Control.preshutdown = true
is_stop _ = false

-- A control of the list asks to stop.
abbrev pub asks_stop : List Control → Bool
asks_stop [] = false
asks_stop (k ∷ ks) = is_stop k || asks_stop ks

-- The last PAUSE or CONTINUE of the list is a PAUSE; without one, `before`.
abbrev pub asks_pause : Bool → List Control → Bool
asks_pause before [] = before
asks_pause before (Control.pause ∷ ks) = asks_pause true ks
asks_pause before (Control.continue ∷ ks) = asks_pause false ks
asks_pause before (Control.stop ∷ ks) = asks_pause before ks
asks_pause before (Control.preshutdown ∷ ks) = asks_pause before ks
asks_pause before (Control.interrogate ∷ ks) = asks_pause before ks
asks_pause before (Control.other ∷ ks) = asks_pause before ks

-- While the start runs, a control only records what it asks for.
pub early-records :
    (ks : List Control) (c : Controller)
    → c.start_done ≡ false
    → handle_all ks c ≡ (
      record c {
        exit_signaled = c.exit_signaled || asks_stop ks;
        pause_requested = asks_pause c.pause_requested ks;
        stop_requested = c.stop_requested || asks_stop ks;
      },
      [],
    )
unfolding handle_all
early-records [] c h = ground arith
early-records (Control.stop ∷ ks) c h = ground (arith, early-records ks (handle Control.stop c).0)
early-records (Control.preshutdown ∷ ks) c h =
    ground (arith, early-records ks (handle Control.preshutdown c).0)
early-records (Control.pause ∷ ks) c h = ground (arith, early-records ks (handle Control.pause c).0)
early-records (Control.continue ∷ ks) c h =
    ground (arith, early-records ks (handle Control.continue c).0)
early-records (Control.interrogate ∷ ks) c h = ground (arith, early-records ks c h)
early-records (Control.other ∷ ks) c h = ground (arith, early-records ks c h)

-- The state that a start should end in.
abbrev pub wanted_state : Bool → Bool → ServiceState
wanted_state stops pauses =
    if stops
    then ServiceState.stop_pending
    else if pauses
    then ServiceState.paused
    else ServiceState.running

-- What the end of a start should report and call.
abbrev pub wanted_effects : Handlers → Bool → Bool → List Effect
wanted_effects h stops pauses =
    if stops
    then report ServiceState.stop_pending 5000 ∷ called h.has_stop on_stop
    else if pauses
    then report ServiceState.pause_pending 5000 ∷ called h.has_pause on_pause
      ++ report ServiceState.paused 0 ∷ []
    else report ServiceState.running 0 ∷ []

-- Whatever controls arrive before `FinalizeStart`, no callback runs and nothing is reported for them
-- until `on_start` has returned. The start then ends in STOP_PENDING if a STOP or PRESHUTDOWN
-- arrived, else in PAUSED if the last PAUSE or CONTINUE was a PAUSE, else in RUNNING, with the
-- reports and callbacks of that state only; and the exit event is signaled exactly if a STOP or
-- PRESHUTDOWN arrived.
pub start_reconciles :
    (early : List Control) (h : Handlers)
    → let (c, es) = service_main_start early (new h) in
      (c.current ≡ wanted_state (asks_stop early) (asks_pause false early))
      × (c.exit_signaled ≡ asks_stop early)
      × (es
          ≡ report ServiceState.start_pending 10000 ∷ called h.has_start on_start
            ++ wanted_effects h (asks_stop early) (asks_pause false early))
unfolding service_main_start new report_state finalize_start
start_reconciles early h =
    let c = (report_state ServiceState.start_pending 10000 (new h)).0 in
    ground (arith, early-records early c refl)

asks_stop-append : (xs ys : List Control) → asks_stop (xs ++ ys) ≡ (asks_stop xs || asks_stop ys)
asks_stop-append [] ys = refl
asks_stop-append (x ∷ xs) ys = ground (arith, asks_stop-append xs ys)

asks_pause-append :
    (b : Bool) (xs ys : List Control) → asks_pause b (xs ++ ys) ≡ asks_pause (asks_pause b xs) ys
asks_pause-append b [] ys = refl
asks_pause-append b (Control.pause ∷ xs) ys = asks_pause-append true xs ys
asks_pause-append b (Control.continue ∷ xs) ys = asks_pause-append false xs ys
asks_pause-append b (Control.stop ∷ xs) ys = asks_pause-append b xs ys
asks_pause-append b (Control.preshutdown ∷ xs) ys = asks_pause-append b xs ys
asks_pause-append b (Control.interrogate ∷ xs) ys = asks_pause-append b xs ys
asks_pause-append b (Control.other ∷ xs) ys = asks_pause-append b xs ys

-- Once started, a control without a STOP leaves the state that PAUSE and CONTINUE ask for.
late-state :
    (ks : List Control) (c : Controller)
    → c.start_done ≡ true
    → asks_stop ks ≡ false
    → c.current ≡ wanted_state false c.pause_requested
    → (handle_all ks c).0.current ≡ wanted_state false (asks_pause c.pause_requested ks)
unfolding handle_all
late-state [] c done calm h = h
late-state (Control.stop ∷ ks) c done calm h = absurd (ground arith)
late-state (Control.preshutdown ∷ ks) c done calm h = absurd (ground arith)
late-state (Control.pause ∷ ks) c done calm h =
    late-state ks (handle Control.pause c).0 (ground arith) calm (ground arith) ∙ ground arith
late-state (Control.continue ∷ ks) c done calm h =
    late-state ks (handle Control.continue c).0 (ground arith) calm (ground arith) ∙ ground arith
late-state (Control.interrogate ∷ ks) c done calm h = late-state ks c done calm h
late-state (Control.other ∷ ks) c done calm h = late-state ks c done calm h

late-signal :
    (ks : List Control) (c : Controller)
    → (handle_all ks c).0.exit_signaled ≡ (c.exit_signaled || asks_stop ks)
unfolding handle_all
late-signal [] c = ground arith
late-signal (Control.stop ∷ ks) c = late-signal ks (handle Control.stop c).0 ∙ ground arith
late-signal (Control.preshutdown ∷ ks) c =
    late-signal ks (handle Control.preshutdown c).0 ∙ ground arith
late-signal (Control.pause ∷ ks) c = late-signal ks (handle Control.pause c).0 ∙ ground arith
late-signal (Control.continue ∷ ks) c = late-signal ks (handle Control.continue c).0 ∙ ground arith
late-signal (Control.interrogate ∷ ks) c = late-signal ks c
late-signal (Control.other ∷ ks) c = late-signal ks c

started : (early : List Control) (h : Handlers) → Controller
started early h = (service_main_start early (new h)).0

started-facts :
    (early : List Control) (h : Handlers)
    → let c = started early h in
      (c.current ≡ wanted_state (asks_stop early) (asks_pause false early))
      × (c.exit_signaled ≡ asks_stop early)
      × (c.start_done ≡ true)
      × (c.pause_requested ≡ asks_pause false early)
unfolding started service_main_start new report_state finalize_start
started-facts early h =
    let c = (report_state ServiceState.start_pending 10000 (new h)).0 in
    ground (arith, early-records early c refl)

-- `ServiceMain` gets past its wait, and reports STOPPED as its last effect and state, exactly if a
-- STOP or PRESHUTDOWN arrives, during the start or after it.
pub main_ends :
    (early late : List Control) (h : Handlers)
    → let (c, es, ended) = service_main early late (new h) in
      (ended ≡ (asks_stop early || asks_stop late))
      × (ended ≡ true
          → (c.current ≡ ServiceState.stopped)
            × ((before : List Effect) × (es ≡ before ++ report ServiceState.stopped 0 ∷ [])))
unfolding service_main started
main_ends early late h =
    let s = service_main_start early (new h) in
    let f = started-facts early h in
    let sig = late-signal late s.0 in
    elim (Bool-cases (handle_all late s.0).0.exit_signaled) [
      | inl on ↦
          rw (on, service_main)
            (sym on ∙ (sig ∙ rw (f.1) refl), λ e. (refl, (s.1 ++ (handle_all late s.0).1, refl)))
      | inr off ↦
          rw (off, service_main) (sym off ∙ (sig ∙ rw (f.1) refl), λ e. absurd (ground arith))
    ]

-- Without a STOP it makes no difference to the service's state whether its controls arrive before the
-- start is done or after it.
timing_irrelevant :
    (early late : List Control) (h : Handlers)
    → asks_stop (early ++ late) ≡ false
    → (service_main early late (new h)).0.current
      ≡ (service_main (early ++ late) [] (new h)).0.current
unfolding service_main started
timing_irrelevant early late h calm =
    let f = started-facts early h in
    let g = started-facts (early ++ late) h in
    let sig = late-signal late (service_main_start early (new h)).0 in
    let st = late-state late (service_main_start early (new h)).0 f.2 in
    ground (
      arith,
      f,
      g,
      sig,
      st,
      asks_stop-append early late,
      asks_pause-append false early late,
      late-signal [] (service_main_start (early ++ late) (new h)).0,
    )
