-- ===== src/Controller.antt =====
-- apps/hwpanel-service/service_controller.cpp: the service's side of the Service Control Manager
-- protocol. A handler runs under `state_mutex_`, so each control is one step, and so is
-- `FinalizeStart`. What reaches the outside is a list of effects, in order.
pub mod Startup
mod Tests
use hardware_panel.Base.{ℕ, Bool, true, false, List, [], ◌∷◌, ◌++◌, if◌then◌else◌}

-- SERVICE_STOPPED and so on.
pub data ServiceState : Type 0 where
  stopped start_pending stop_pending running continue_pending pause_pending paused : ServiceState

-- SERVICE_CONTROL_STOP and so on; `other` is any control that the handler does not know.
pub data Control : Type 0 where
  stop preshutdown pause continue interrogate other : Control

pub data ReturnCode : Type 0 where
  no_error call_not_implemented : ReturnCode

-- `report` is `SetServiceStatus` with its state and wait hint; the others are the callbacks.
pub data Effect : Type 0 where
  report : ServiceState → ℕ → Effect
  on_start on_stop on_pause on_continue : Effect

-- Which callbacks are set.
pub record Handlers : Type 0 where
  pub has_start : Bool
  pub has_stop : Bool
  pub has_pause : Bool
  pub has_continue : Bool

-- `current` is `status_.dwCurrentState`, `exit_signaled` the state of `exit_event_`.
pub record Controller : Type 0 where
  pub handlers : Handlers
  pub current : ServiceState
  pub exit_signaled : Bool
  pub start_done : Bool
  pub pause_requested : Bool
  pub stop_requested : Bool

unfoldable pub new : Handlers → Controller
new handlers = record {
  handlers = handlers;
  current = ServiceState.stopped;
  exit_signaled = false;
  start_done = false;
  pause_requested = false;
  stop_requested = false;
}

unfoldable pub report_state : ServiceState → ℕ → Controller → Controller × List Effect
report_state state wait_hint c = (record c { current = state }, report state wait_hint ∷ [])

abbrev pub called : Bool → Effect → List Effect
called true e = e ∷ []
called false e = []

-- A report, the callback if it is set, and a second report.
abbrev between : ServiceState → Bool → Effect → ServiceState → Controller → Controller × List Effect
between pending set e final c =
    (record c { current = final }, report pending 5000 ∷ called set e ++ report final 0 ∷ [])

abbrev stopping : Controller → Controller × List Effect
stopping c = (
  record c { current = ServiceState.stop_pending },
  report ServiceState.stop_pending 5000 ∷ called c.handlers.has_stop on_stop,
)

abbrev signal : Controller × List Effect → Controller × List Effect
signal (c, es) = (record c { exit_signaled = true }, es)

unfoldable pub request_stop : Controller → Controller × List Effect
request_stop c =
    let c' = record c { stop_requested = true } in
    signal (if c'.start_done then stopping c' else (c', []))

-- `HandlerThunk`.
unfoldable pub handle : Control → Controller → Controller × List Effect × ReturnCode
unfolding request_stop
handle Control.stop c = let (c', es) = request_stop c in (c', es, no_error)
handle Control.preshutdown c = let (c', es) = request_stop c in (c', es, no_error)
handle Control.pause c =
    let c' = record c { pause_requested = true } in
    let (c'', es) =
      if c'.start_done
      then between ServiceState.pause_pending c'.handlers.has_pause on_pause ServiceState.paused c'
      else (c', []) in
    (c'', es, no_error)
handle Control.continue c =
    let c' = record c { pause_requested = false } in
    let (c'', es) =
      if c'.start_done
      then between ServiceState.continue_pending c'.handlers.has_continue on_continue
          ServiceState.running c'
      else (c', []) in
    (c'', es, no_error)
handle Control.interrogate c = (c, [], no_error)
handle Control.other c = (c, [], call_not_implemented)

-- Controls that arrive one after the other.
unfoldable pub handle_all : List Control → Controller → Controller × List Effect
unfolding handle
handle_all [] c = (c, [])
handle_all (k ∷ ks) c =
    let (c', es, code) = handle k c in let (c'', es') = handle_all ks c' in (c'', es ++ es')

unfoldable pub finalize_start : Controller → Controller × List Effect
finalize_start c =
    let c' = record c { start_done = true } in
    if c'.stop_requested
    then stopping c'
    else if c'.pause_requested
    then between ServiceState.pause_pending c'.handlers.has_pause on_pause ServiceState.paused c'
    else (record c' { current = ServiceState.running }, report ServiceState.running 0 ∷ [])

-- `ServiceMainThunk` up to its wait, `early` being the controls that the handler takes before
-- `FinalizeStart` has the mutex. The effects are those of the whole start.
unfoldable pub service_main_start : List Control → Controller → Controller × List Effect
unfolding report_state handle_all finalize_start
service_main_start early c =
    let (c1, es1) = report_state ServiceState.start_pending 10000 c in
    let (c2, es2) = handle_all early c1 in
    let (c3, es3) = finalize_start c2 in
    (c3, es1 ++ called c.handlers.has_start on_start ++ es2 ++ es3)

-- The whole of `ServiceMainThunk`: `late` are the controls up to the end of the wait, which `none`
-- says never comes.
unfoldable pub service_main :
    List Control → List Control → Controller → Controller × List Effect × Bool
unfolding service_main_start handle_all
service_main early late c =
    let (c1, es1) = service_main_start early c in
    let (c2, es2) = handle_all late c1 in
    if c2.exit_signaled
    then (
      record c2 { current = ServiceState.stopped },
      es1 ++ es2 ++ report ServiceState.stopped 0 ∷ [],
      true,
    )
    else (c2, es1 ++ es2, false)
