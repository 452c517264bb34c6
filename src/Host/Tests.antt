-- ===== src/Host/Tests.antt =====
-- Starts of a host, and its properties at them.
use hardware_panel.Base.{
  ℕ, String, Bool, true, false, ◌≡◌, ◌≢◌, refl, ap, Option, ◌⊎◌, [], ◌∷◌, none, some, str_eq, inl,
  ◌&◌,
}
use hardware_panel.Base.Assoc.{lookup}
use hardware_panel.Base.Int.{pos}
use hardware_panel.Endpoint.{tcp_address, is_named_pipe_address}
use hardware_panel.Fanout
use hardware_panel.Bus
use hardware_panel.Pipeline
use hardware_panel.Pipeline.{Collector}
use hardware_panel.Store
use hardware_panel.Store.{Dir}
use hardware_panel.Store.Sample.{object_doc, text_doc, put_doc, sample_json, sample_fs}
use hardware_panel.Host.{
  Host, stops, pauses, resumes, new, bind, build_server, start, run, state_name,
}
use hardware_panel.Endpoint.CommandLine.{options_of}
use hardware_panel.Host.Console.{
  ConsoleEvent, ctrl_c, ctrl_break, ctrl_close, ctrl_logoff, ctrl_shutdown, Windows, waits, killed,
  returned, looks, console, live, main,
}
use hardware_panel.Host.Console.Waiting.{console_never_stops}
use hardware_panel.Controller
use hardware_panel.Controller.{Control, ServiceState, service_main}
use hardware_panel.Host.Scm.{all_handlers, run_service, scm_agrees}
use hardware_panel.Host.Lifecycle.{state_truthful, failed_start_leaks}

abbrev one_profile : Dir sample_json
one_profile = ("quiet.json", put_doc "id" (text_doc "quiet") object_doc) ∷ []

abbrev only_tcp : String → Bool
only_tcp a = str_eq a "127.0.0.1:50051"

abbrev none_binds : String → Bool
none_binds a = false

-- The port that is printed is always 50051.
abbrev port_text : ℕ → String
port_text n = "50051"

seeded : Store.ensure_defaults sample_json sample_fs one_profile ≡ some one_profile
unfolding Store.ensure_defaults Store.list Store.list_loop Store.parse_file Store.parse_bytes
    Store.profile_of Store.settings_of Store.sort Store.insert_sorted lookup
seeded = refl

abbrev started : Host sample_json ℕ ℕ
started = record {
  dir = one_profile;
  events = Bus.publish_now (pos 7) "info" "Service started" "127.0.0.1:50051" Fanout.empty;
  pipeline = record { collectors = []; running = true; thread = true };
  watching = some true;
  server = some "127.0.0.1:50051";
  endpoint = "127.0.0.1:50051";
  started_at = 3;
  running = true;
  paused = false;
}

starts :
    start sample_json sample_fs only_tcp port_text [] true (pos 7) 3 "np:x" (new one_profile)
    ≡ some (started, true)
unfolding start new bind build_server tcp_address is_named_pipe_address Pipeline.start
    Pipeline.empty
starts = rw (seeded, start) refl

state_truthful_example :
    let h' = run started (pauses ∷ stops ∷ resumes ∷ []) in
    (state_name h' ≡ "RUNNING" → (h'.server ≢ none) × (h'.pipeline.running ≡ true))
    × (state_name h' ≡ "PAUSED" → (h'.server ≢ none) × (h'.pipeline.running ≡ false))
    × ((state_name h' ≡ "RUNNING") ⊎ ((state_name h' ≡ "PAUSED") ⊎ (state_name h' ≡ "STOPPED")))
state_truthful_example =
    state_truthful sample_json sample_fs only_tcp port_text [] true (pos 7) 3 "np:x" one_profile
      started (pauses ∷ stops ∷ resumes ∷ []) starts

failed_start_leaks_example :
    (h : Host sample_json ℕ ℕ) × (start sample_json sample_fs none_binds port_text [] true
        (pos 7)
        3
        "np:x"
        (new one_profile)
      ≡ some (h, false))
    × ((run h (stops ∷ [])).pipeline.running ≡ true)
    × ((run h (stops ∷ [])).watching ≡ some true)
    × (state_name (run h (stops ∷ [])) ≡ "STOPPED")
failed_start_leaks_example =
    failed_start_leaks sample_json sample_fs none_binds port_text [] true (pos 7) 3 "np:x"
      one_profile one_profile (stops ∷ []) seeded refl refl refl

abbrev kept : Host sample_json ℕ ℕ → Option (Host sample_json ℕ ℕ × Bool) → Host sample_json ℕ ℕ
kept h none = h
kept h (some (h', ok)) = h'

abbrev start_on_tcp : Host sample_json ℕ ℕ → Host sample_json ℕ ℕ
start_on_tcp h = kept h (start sample_json sample_fs only_tcp port_text [] true (pos 7) 3 "np:x" h)

start_on_tcp-starts : start_on_tcp (new one_profile) ≡ started
start_on_tcp-starts = ap (kept (new one_profile)) starts

scm_agrees_example :
    let (c, es, ended) =
      service_main
        (Control.pause ∷ Control.continue ∷ [])
        (Control.pause ∷ [])
        (Controller.new all_handlers) in
    let name = state_name (run_service start_on_tcp es (new one_profile)) in
    ((c.current ≡ ServiceState.paused) × (name ≡ "PAUSED"))
    ⊎ ((c.current ≡ ServiceState.running) × (name ≡ "RUNNING"))
scm_agrees_example =
    scm_agrees start_on_tcp (Control.pause ∷ Control.continue ∷ []) (Control.pause ∷ [])
      (new one_profile) refl refl (ap (λ h. h.running) start_on_tcp-starts)
      (ap (λ h. h.paused) start_on_tcp-starts)

-- As documented: a process whose handler answers TRUE goes on, but for a console that is closed.
abbrev windows : Windows
windows = record { ends_process = ends }
  where
    ends : ConsoleEvent → Bool → Bool
    ends e false = true
    ends ctrl_c true = false
    ends ctrl_break true = false
    ends ctrl_close true = true
    ends ctrl_logoff true = false
    ends ctrl_shutdown true = false

abbrev joined : String → String → String
joined a b = a & ("\\" & b)

console_never_stops_example :
    let p =
      main sample_json sample_fs only_tcp port_text [] true
        (pos 7)
        3
        joined
        true
        "D:"
        none
        none
        ("--console" ∷ "--endpoint" ∷ "np:x" ∷ [])
        one_profile in
    let xs = console ctrl_c ∷ looks ∷ console ctrl_close ∷ looks ∷ [] in
    (((live windows p xs).phase ≡ waits) ⊎ ((live windows p xs).phase ≡ killed))
    × ((live windows p xs).host ≡ started)
    × ((live windows p (console ctrl_c ∷ console ctrl_break ∷ looks ∷ [])).phase ≡ waits)
console_never_stops_example =
    console_never_stops sample_fs windows only_tcp port_text [] true (pos 7) 3 joined true "D:" none
      none ("--console" ∷ "--endpoint" ∷ "np:x" ∷ []) one_profile
      (record { endpoint = "np:x"; console = true }) started
      (console ctrl_c ∷ looks ∷ console ctrl_close ∷ looks ∷ [])
      (console ctrl_c ∷ console ctrl_break ∷ looks ∷ []) (unfold options_of in refl) (inl refl)
      starts refl refl tt

-- The exit code of the usage message.
usage :
    (main sample_json sample_fs {S = ℕ} {V = ℕ} only_tcp port_text [] true
      (pos 7)
      3
      joined
      true
      "D:"
      none
      none
      ("--help" ∷ [])
      one_profile).phase
    ≡ returned 2
unfolding main options_of
usage = refl
