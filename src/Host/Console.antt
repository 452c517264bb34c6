-- ===== src/Host/Console.antt =====
-- `main`, `InitLogging`, `RunConsole` and `RunService` of apps/hwpanel-service/main.cpp. Windows is
-- outside: whether the folder of the logs can be made, what the dispatcher does with the controls,
-- when it calls the handler of the console, and when it ends a process.
pub mod Waiting
use hardware_panel.Base.{
  ℕ, String, Bool, true, false, ◌≡◌, refl, ◌⊎◌, inl, inr, Bool-cases, List, [], ◌∷◌, Option, none,
  some, arith, if◌then◌else◌,
}
use hardware_panel.Base.Int.{ℤ}
use hardware_panel.Controller.{Control, Effect, new, service_main}
use hardware_panel.Endpoint.CommandLine.{Options, options_of}
use hardware_panel.Host
use hardware_panel.Host.{Host, stop}
use hardware_panel.Host.Scm.{all_handlers, run_service}
use hardware_panel.Logging.{Logger, Sink, init, add_sink}
use hardware_panel.Pipeline.{Collector}
use hardware_panel.Store.{Dir}
use hardware_panel.Store.Env.{Json, FileSystem}

-- `CTRL_C_EVENT` and so on.
pub data ConsoleEvent : Type 0 where
  ctrl_c ctrl_break ctrl_close ctrl_logoff ctrl_shutdown : ConsoleEvent

-- The handler of `RunConsole`: it answers, and does nothing else.
unfoldable pub handler : ConsoleEvent → Bool
handler ctrl_c = true
handler ctrl_break = true
handler ctrl_close = true
handler ctrl_logoff = false
handler ctrl_shutdown = false

-- What Windows makes of the answer of a handler: whether it ends the process.
pub record Windows : Type 0 where
  pub ends_process : ConsoleEvent → Bool → Bool

unfoldable pub init_logging : (String → String → String) → Bool → String → Logger
init_logging join made data_dir =
    add_sink join Sink.etw (add_sink join Sink.eventlog (init join made "hwpanel-service" data_dir))

-- The process: `waits` in `WaitForSingleObject`, or it has ended, with the exit code if it returned
-- from `main`, by `terminate` if an exception left a function, or by Windows.
pub data Phase : Type 0 where
  waits serves : Phase
  returned : ℕ → Phase
  terminated killed : Phase

-- `stop_event` is the state of the event of that name.
pub record Process (json : Json) (S V : Type 0) : Type 0 where
  pub phase : Phase
  pub logger : Option Logger
  pub host : Host json S V
  pub stop_event : Bool

-- What the main thread and Windows do to a process that waits: the wait is looked at, or the console
-- passes an event on.
pub data Happening : Type 0 where
  looks : Happening
  console : ConsoleEvent → Happening

module _ {json : Json} {S V : Type 0} (w : Windows) where
  -- The end of the wait, if the event is set.
  abbrev after_wait : Process json S V → Process json S V
  after_wait p = if p.stop_event then record p { host = stop p.host; phase = returned 0 } else p

  abbrev on_event : ConsoleEvent → Process json S V → Process json S V
  on_event e p = if w.ends_process e (handler e) then record p { phase = killed } else p

  abbrev pub waiting_step : Happening → Process json S V → Process json S V
  waiting_step looks p = after_wait p
  waiting_step (console e) p = on_event e p

  abbrev pub step_in : Phase → Happening → Process json S V → Process json S V
  step_in waits x p = waiting_step x p
  step_in serves x p = p
  step_in (returned c) x p = p
  step_in terminated x p = p
  step_in killed x p = p

  unfoldable pub live : Process json S V → List Happening → Process json S V
  unfolding handler stop
  live p [] = p
  live p (x ∷ xs) = live (step_in p.phase x p) xs

module _ {json : Json} {S V : Type 0} where
  abbrev started : Logger → Host json S V → Option (Host json S V × Bool) → Process json S V
  started logger h none = record {
    phase = terminated;
    logger = some logger;
    host = h;
    stop_event = false;
  }
  started logger h (some (h', false)) = record {
    phase = returned 1;
    logger = some logger;
    host = h';
    stop_event = false;
  }
  started logger h (some (h', true)) = record {
    phase = waits;
    logger = some logger;
    host = h';
    stop_event = false;
  }

  -- `RunConsole` up to its wait; `start` is `Start` of the host at the endpoint.
  unfoldable pub run_console :
      Logger → (Host json S V → Option (Host json S V × Bool)) → Host json S V → Process json S V
  run_console logger start h = started logger h (start h)

  abbrev served :
      Logger → List Effect → Host json S V → Bool → Option (Host json S V × Bool) → Process json S V
  served logger es h ended none = record {
    phase = terminated;
    logger = some logger;
    host = h;
    stop_event = false;
  }
  served logger es h ended (some (h', ok)) = record {
    phase = if ended then returned 0 else serves;
    logger = some logger;
    host = run_service (λ g. h') es h;
    stop_event = false;
  }

  -- `RunService`: `none` is a dispatcher that fails because the process was not started by the SCM,
  -- otherwise the controls that come before `FinalizeStart` and after it.
  unfoldable pub run_service_mode :
      Logger
      → (Host json S V → Option (Host json S V × Bool))
      → Option (List Control × List Control)
      → Host json S V
      → Process json S V
  unfolding run_console
  run_service_mode logger start none h = run_console logger start h
  run_service_mode logger start (some (early, late)) h =
      let (c, es, ended) = service_main early late (new all_handlers) in
      served logger es h ended (start h)

  abbrev chosen :
      Logger
      → (String → Host json S V → Option (Host json S V × Bool))
      → Option (List Control × List Control)
      → Host json S V
      → Option Options
      → Process json S V
  chosen logger start dispatched h none = record {
    phase = returned 2;
    logger = none;
    host = h;
    stop_event = false;
  }
  chosen logger start dispatched h (some o) =
      if o.console
      then run_console logger (start o.endpoint) h
      else run_service_mode logger (start o.endpoint) dispatched h

module _ (json : Json) (fs : FileSystem json.Bytes) {S V : Type 0} where
  -- `main`, with what the machine answers.
  unfoldable pub main :
      (String → Bool)
      → (ℕ → String)
      → List (Collector S V)
      → Bool
      → ℤ
      → ℕ
      → (String → String → String)
      → Bool
      → String
      → Option (List Control × List Control)
      → Option String
      → List String
      → Dir json
      → Process json S V
  main binds to_string collectors watch now steady join made data_dir dispatched environment args
        dir =
      chosen (init_logging join made data_dir)
        (λ endpoint. Host.start json fs binds to_string collectors watch now steady endpoint)
        dispatched (Host.new dir) (options_of environment args)
