-- ===== src/Controller/Tests.antt =====
-- Runs of the controller, and its properties at them.
use hardware_panel.Base.{◌≡◌, List, [], ◌∷◌, ◌++◌, true, false}
use hardware_panel.Controller.{
  ServiceState, Control, Effect, report, on_start, on_pause, Handlers, new, service_main_start,
  service_main,
}
use hardware_panel.Controller.Startup.{start_reconciles, main_ends}

abbrev all_set : Handlers
all_set = record { has_start = true; has_stop = true; has_pause = true; has_continue = true }

start_reconciles_example :
    let (c, es) = service_main_start (Control.continue ∷ Control.pause ∷ []) (new all_set) in
    (c.current ≡ ServiceState.paused)
    × (c.exit_signaled ≡ false)
    × (es
        ≡ report ServiceState.start_pending 10000
          ∷ on_start
          ∷ report ServiceState.pause_pending 5000
          ∷ on_pause
          ∷ report ServiceState.paused 0
          ∷ [])
start_reconciles_example = start_reconciles (Control.continue ∷ Control.pause ∷ []) all_set

main_ends_example :
    let (c, es, ended) =
      service_main (Control.pause ∷ []) (Control.continue ∷ Control.stop ∷ []) (new all_set) in
    (ended ≡ true)
    × (ended ≡ true
        → (c.current ≡ ServiceState.stopped)
          × ((before : List Effect) × (es ≡ before ++ report ServiceState.stopped 0 ∷ [])))
main_ends_example = main_ends (Control.pause ∷ []) (Control.continue ∷ Control.stop ∷ []) all_set
