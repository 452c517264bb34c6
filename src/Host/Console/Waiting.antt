-- ===== src/Host/Console/Waiting.antt =====
-- The wait of `RunConsole` of apps/hwpanel-service/main.cpp.
use hardware_panel.Base.{
  ℕ, String, Bool, true, false, ◌≡◌, refl, ◌⊎◌, inl, inr, Bool-cases, List, [], ◌∷◌, Option, none,
  some,
}
use hardware_panel.Base.Int.{ℤ}
use hardware_panel.Controller.{Control}
use hardware_panel.Endpoint.CommandLine.{Options, options_of}
use hardware_panel.Host
use hardware_panel.Host.{Host, stop}
use hardware_panel.Pipeline.{Collector}
use hardware_panel.Store.{Dir}
use hardware_panel.Store.Env.{Json, FileSystem}
use hardware_panel.Host.Console.{
  ctrl_c, ctrl_break, ctrl_close, ctrl_logoff, ctrl_shutdown, handler, Windows, init_logging, waits,
  killed, Process, Happening, looks, console, waiting_step, step_in, live, run_console,
  run_service_mode, main,
}

-- Ctrl+C and Ctrl+Break in any number, and looks at the wait.
abbrev Interrupts : List Happening → Type 0
Interrupts [] = Unit {0}
Interrupts (looks ∷ xs) = Interrupts xs
Interrupts (console ctrl_c ∷ xs) = Interrupts xs
Interrupts (console ctrl_break ∷ xs) = Interrupts xs
Interrupts (console ctrl_close ∷ xs) = ⊥
Interrupts (console ctrl_logoff ∷ xs) = ⊥
Interrupts (console ctrl_shutdown ∷ xs) = ⊥

module _ {json : Json} {S V : Type 0} (w : Windows) where
  -- The process waits, or Windows has ended it; nobody has set its event, and its host is `h`.
  record IsParked (h : Host json S V) (p : Process json S V) : Type 0 where
    parked : (p.phase ≡ waits) ⊎ (p.phase ≡ killed)
    unset : p.stop_event ≡ false
    same : p.host ≡ h

  waiting_step-IsParked :
      (h : Host json S V) (p : Process json S V) (x : Happening)
      → IsParked h p
      → IsParked h (waiting_step w x p)
  waiting_step-IsParked h p looks k = simp (k.unset) k
  waiting_step-IsParked h p (console e) k = elim (Bool-cases (w.ends_process e (handler e))) [
    | inl dead ↦ rw dead (record { parked = inr refl; unset = k.unset; same = k.same })
    | inr alive ↦ rw alive k
  ]

  live-IsParked :
      (h : Host json S V) (p : Process json S V) (xs : List Happening)
      → IsParked h p
      → IsParked h (live w p xs)
  unfolding live
  live-IsParked h p [] k = k
  live-IsParked h p (x ∷ xs) k = live-IsParked h (step_in w p.phase x p) xs (elim k.parked [
    | inl here ↦ simp here (waiting_step-IsParked h p x k)
    | inr dead ↦ simp dead k
  ])

  live-Interrupts :
      (p : Process json S V) (xs : List Happening)
      → Interrupts xs
      → w.ends_process ctrl_c true ≡ false
      → w.ends_process ctrl_break true ≡ false
      → p.phase ≡ waits
      → p.stop_event ≡ false
      → (live w p xs).phase ≡ waits
  unfolding live handler
  live-Interrupts p [] calm c b here unset = here
  live-Interrupts p (looks ∷ xs) calm c b here unset =
      simp (here, unset) (live-Interrupts p xs calm c b here unset)
  live-Interrupts p (console ctrl_c ∷ xs) calm c b here unset =
      simp (here, c) (live-Interrupts p xs calm c b here unset)
  live-Interrupts p (console ctrl_break ∷ xs) calm c b here unset =
      simp (here, b) (live-Interrupts p xs calm c b here unset)
  live-Interrupts p (console ctrl_close ∷ xs) calm c b here unset = elim calm [ ]
  live-Interrupts p (console ctrl_logoff ∷ xs) calm c b here unset = elim calm [ ]
  live-Interrupts p (console ctrl_shutdown ∷ xs) calm c b here unset = elim calm [ ]

module _ {json : Json} (fs : FileSystem json.Bytes) {S V : Type 0} (w : Windows) where
  -- The service in console mode: its arguments are understood, `--console` is among them or the
  -- dispatcher fails, and `Start` succeeds with the host `h`. Whatever the console and the main
  -- thread do, the process waits on or Windows has ended it, and its host is still `h`, which has
  -- not been stopped. If Windows leaves a process alone whose handler answers Ctrl+C and Ctrl+Break
  -- with TRUE, then the process still waits after any number of these two.
  pub console_never_stops :
      (binds : String → Bool) (to_string : ℕ → String) (collectors : List (Collector S V))
      (watch : Bool) (now : ℤ) (steady : ℕ) (join : String → String → String) (made : Bool)
      (data_dir : String) (dispatched : Option (List Control × List Control))
      (environment : Option String) (args : List String) (dir : Dir json) (o : Options)
      (h : Host json S V) (xs ys : List Happening)
      → options_of environment args ≡ some o
      → (o.console ≡ true) ⊎ (dispatched ≡ none)
      → Host.start json fs binds to_string collectors watch now steady o.endpoint (Host.new dir)
        ≡ some (h, true)
      → w.ends_process ctrl_c true ≡ false
      → w.ends_process ctrl_break true ≡ false
      → Interrupts ys
      → let p =
          main json fs binds to_string collectors watch now steady join made data_dir dispatched
            environment args dir in
        (((live w p xs).phase ≡ waits) ⊎ ((live w p xs).phase ≡ killed))
        × ((live w p xs).host ≡ h)
        × ((live w p ys).phase ≡ waits)
  unfolding main run_console run_service_mode
  console_never_stops binds to_string collectors watch now steady join made data_dir dispatched
        environment args dir o h xs ys understood mode up c b calm =
      let logger = init_logging join made data_dir in
      let p : Process json S V = record {
        phase = waits;
        logger = some logger;
        host = h;
        stop_event = false;
      } in
      let parked =
        live-IsParked w h p xs (record { parked = inl refl; unset = refl; same = refl }) in
      let answer : (((live w p xs).phase ≡ waits) ⊎ ((live w p xs).phase ≡ killed))
          × ((live w p xs).host ≡ h)
          × ((live w p ys).phase ≡ waits) =
        (parked.parked, parked.same, live-Interrupts w p ys calm c b refl refl) in
      rw understood (elim mode [
        | inl asked ↦ rw (asked, up) answer
        | inr failed ↦ elim (Bool-cases o.console) [
          | inl asked ↦ rw (asked, up) answer
          | inr silent ↦ rw (failed, silent, up) answer
        ]
      ])
