-- ===== src/Host/Scm.antt =====
-- `RunService` of apps/hwpanel-service/main.cpp: the callbacks of the service controller act on the
-- host. What `Start` makes of the host is an argument; the callback drops its result.
use hardware_panel.Base.{
  ◌≡◌, refl, sym, ◌∙◌, ◌⊎◌, inl, inr, List, [], ◌∷◌, ◌++◌, true, false, if◌then◌else◌, subst, arith,
  Bool-cases,
}
use hardware_panel.Controller.{
  ServiceState, Control, Effect, report, on_start, on_stop, on_pause, on_continue, Handlers,
  Controller, new, report_state, finalize_start, handle, handle_all, service_main_start,
  service_main,
}
use hardware_panel.Controller.Startup.{asks_stop, asks_pause, early-records}
use hardware_panel.Host.{Host, stop, pause_collectors, resume_collectors, state_name}
use hardware_panel.Store.Env.{Json}

-- The four callbacks are set.
abbrev pub all_handlers : Handlers
all_handlers = record { has_start = true; has_stop = true; has_pause = true; has_continue = true }

module _ {json : Json} {S V : Type 0} (start_host : Host json S V → Host json S V) where
  unfoldable pub perform : Effect → Host json S V → Host json S V
  perform (report state wait_hint) h = h
  perform on_start h = start_host h
  perform on_stop h = stop h
  perform on_pause h = pause_collectors h
  perform on_continue h = resume_collectors h

  -- The host after the effects of the controller, in order.
  unfoldable pub run_service : List Effect → Host json S V → Host json S V
  unfolding perform
  run_service [] h = h
  run_service (e ∷ es) h = run_service es (perform e h)

  run_service-append :
      (xs ys : List Effect) (h : Host json S V)
      → run_service (xs ++ ys) h ≡ run_service ys (run_service xs h)
  unfolding run_service
  run_service-append [] ys h = refl
  run_service-append (x ∷ xs) ys h = run_service-append xs ys (perform x h)

  -- The controller has started, and reports what the host does.
  record Agrees (c : Controller) (h : Host json S V) : Type 0 where
    handlers_set : c.handlers ≡ all_handlers
    done : c.start_done ≡ true
    silent : c.exit_signaled ≡ false
    serving : h.running ≡ true
    state : c.current ≡ (if h.paused then ServiceState.paused else ServiceState.running)

  pause-running : (h : Host json S V) → (pause_collectors h).running ≡ h.running
  unfolding pause_collectors
  pause-running h = ground arith

  pause-paused : (h : Host json S V) → (pause_collectors h).paused ≡ true
  unfolding pause_collectors
  pause-paused h = ground arith

  resume-running : (h : Host json S V) → (resume_collectors h).running ≡ h.running
  unfolding resume_collectors
  resume-running h = ground arith

  resume-paused : (h : Host json S V) → (resume_collectors h).paused ≡ false
  unfolding resume_collectors
  resume-paused h = ground arith

  handle-Agrees :
      (k : Control) (c : Controller) (h : Host json S V)
      → Agrees c h
      → asks_stop (k ∷ []) ≡ false
      → Agrees (handle k c).0 (run_service (handle k c).1 h)
  unfolding handle run_service
  handle-Agrees Control.stop c h a calm = absurd (ground arith)
  handle-Agrees Control.preshutdown c h a calm = absurd (ground arith)
  handle-Agrees Control.pause c h a calm =
      rw (a.done, a.handlers_set)
        (record {
          handlers_set = refl;
          done = refl;
          silent = a.silent;
          serving = pause-running h ∙ a.serving;
          state = rw (pause-paused h) refl;
        })
  handle-Agrees Control.continue c h a calm =
      rw (a.done, a.handlers_set)
        (record {
          handlers_set = refl;
          done = refl;
          silent = a.silent;
          serving = resume-running h ∙ a.serving;
          state = rw (resume-paused h) refl;
        })
  handle-Agrees Control.interrogate c h a calm = a
  handle-Agrees Control.other c h a calm = a

  handle_all-Agrees :
      (ks : List Control) (c : Controller) (h : Host json S V)
      → Agrees c h
      → asks_stop ks ≡ false
      → Agrees (handle_all ks c).0 (run_service (handle_all ks c).1 h)
  unfolding handle_all run_service
  handle_all-Agrees [] c h a calm = a
  handle_all-Agrees (k ∷ ks) c h a calm =
      subst (Agrees (handle_all ks (handle k c).0).0)
        (sym (run_service-append (handle k c).1 (handle_all ks (handle k c).0).1 h))
        (handle_all-Agrees ks (handle k c).0 (run_service (handle k c).1 h)
          (handle-Agrees k c h a (ground arith)) (ground arith))

  started-Agrees :
      (early : List Control) (h : Host json S V)
      → asks_stop early ≡ false
      → (start_host h).running ≡ true
      → (start_host h).paused ≡ false
      → let (c, es) = service_main_start early (new all_handlers) in Agrees c (run_service es h)
  unfolding service_main_start new report_state finalize_start run_service
  started-Agrees early h calm up awake =
      let recorded =
        early-records early (report_state ServiceState.start_pending 10000 (new all_handlers)).0
          refl in
      elim (Bool-cases (asks_pause false early)) [
        | inl paused ↦
            rw (recorded, calm, paused)
              record {
                handlers_set = refl;
                done = refl;
                silent = refl;
                serving = pause-running (start_host h) ∙ up;
                state = rw (pause-paused (start_host h)) refl;
              }
        | inr unpaused ↦
            rw (recorded, calm, unpaused)
              record {
                handlers_set = refl;
                done = refl;
                silent = refl;
                serving = up;
                state = rw awake refl;
              }
      ]

  -- If no STOP or PRESHUTDOWN arrives and `Start` leaves the host running and not paused, then
  -- whatever PAUSE and CONTINUE controls arrive, during the start or after it, the state that the
  -- Service Control Manager was told last is what the host reports of itself: PAUSED or RUNNING.
  pub scm_agrees :
      (early late : List Control) (h : Host json S V)
      → asks_stop early ≡ false
      → asks_stop late ≡ false
      → (start_host h).running ≡ true
      → (start_host h).paused ≡ false
      → let (c, es, ended) = service_main early late (new all_handlers) in
        let name = state_name (run_service es h) in
        ((c.current ≡ ServiceState.paused) × (name ≡ "PAUSED"))
        ⊎ ((c.current ≡ ServiceState.running) × (name ≡ "RUNNING"))
  unfolding service_main state_name
  scm_agrees early late h calm_early calm_late up awake =
      let (c, es) = service_main_start early (new all_handlers) in
      let a =
        handle_all-Agrees late c (run_service es h) (started-Agrees early h calm_early up awake)
          calm_late in
      rw (a.silent) (
        named (handle_all late c).0 (run_service (es ++ (handle_all late c).1) h) (
          subst (Agrees (handle_all late c).0) (sym (run_service-append es (handle_all late c).1 h))
            a))
    where
      named :
          (c : Controller) (h : Host json S V)
          → Agrees c h
          → ((c.current ≡ ServiceState.paused) × (state_name h ≡ "PAUSED"))
            ⊎ ((c.current ≡ ServiceState.running) × (state_name h ≡ "RUNNING"))
      named c h a = elim (Bool-cases h.paused) [
        | inl on ↦ inl (a.state ∙ rw on refl, rw (a.serving, on) refl)
        | inr off ↦ inr (a.state ∙ rw off refl, rw (a.serving, off) refl)
      ]
