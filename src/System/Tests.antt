-- ===== src/System/Tests.antt =====
-- A client that watches three ticks, and what it shows of them.
use hardware_panel.Base.{ℕ, suc, ◌+◌, ◌≡◌, refl, true, List, [], ◌∷◌, ◌++◌, arith}
use hardware_panel.Base.Int.{pos}
use hardware_panel.Types.{TelemetrySample}
use hardware_panel.Pipeline.{Collector, Collected, tick, collect_all}
use hardware_panel.Fanout
use hardware_panel.Fanout.{Op, publishes, subscribes, closes}
use hardware_panel.Hub
use hardware_panel.Service
use hardware_panel.Client
use hardware_panel.Client.{Double}
use hardware_panel.Client.Worker.{thread_step}
use hardware_panel.Client.Worker.Stream.{core_sample, core_metrics}
use hardware_panel.System.{
  Move, ticks, polls, client_steps, others, run, step, sampled, opened, poll,
}
use hardware_panel.System.Shown.{IsApart, KeepsUp, just_opened, waiting_for_call}
use hardware_panel.System.Charts.{IsShown, charts_show_ticks}

abbrev whole : Double
whole = record { V = ℕ; zero_value = 0; add = λ a b. a + b }

-- The load is the number of the tick.
abbrev load : Collector ℕ ℕ
load = record {
  id = "load";
  available = λ s. true;
  collect = λ s. (
    Collected.metrics (record { metric_id = "cpu.usage_pct"; value = s; unit = "%" } ∷ []),
    suc s,
  );
}

abbrev watching : List (Move (TelemetrySample ℕ))
watching =
    ticks (pos 10)
    ∷ polls
    ∷ client_steps
    ∷ ticks (pos 20)
    ∷ others (closes 0)
    ∷ client_steps
    ∷ polls
    ∷ client_steps
    ∷ client_steps
    ∷ ticks (pos 30)
    ∷ []

abbrev earlier : List (Op (TelemetrySample ℕ))
earlier = subscribes ∷ publishes (record { timestamp_ms = pos 1; metrics = [] }) ∷ []

-- The charts show the first two ticks; the third waits.
cpu_shown :
    (run (load ∷ []) (just_opened whole {S = ℕ} 5 earlier 7) watching).store.cpu_usage.values
    ≡ 7 ∷ 8 ∷ []
unfolding run step opened poll sampled tick collect_all thread_step core_sample core_metrics Hub.run
    Hub.new Hub.step Hub.publish Hub.subscribe Fanout.subscribe Fanout.publish Fanout.empty
    Fanout.live Fanout.deliver Fanout.accept Fanout.pop_at Fanout.pop Fanout.close_at
    Service.subscribe_loop Service.decimate_of Service.sample_to_proto Service.keep_metrics
    Client.handle_sample Client.route_all Client.route Client.append_value Client.new_store
cpu_shown = refl

another_call : IsApart (just_opened whole {S = ℕ} 5 earlier 7).call watching
unfolding opened Hub.run Hub.new Hub.step Hub.publish Hub.subscribe Fanout.subscribe Fanout.publish
    Fanout.empty Fanout.live Fanout.deliver
another_call = ((λ e. absurd (ground arith)), tt)

room : KeepsUp (load ∷ []) (just_opened whole {S = ℕ} 5 earlier 7) watching
unfolding run step opened poll sampled tick collect_all thread_step core_sample core_metrics Hub.run
    Hub.new Hub.step Hub.publish Hub.subscribe Fanout.subscribe Fanout.publish Fanout.empty
    Fanout.live Fanout.deliver Fanout.accept Fanout.pop_at Fanout.pop Fanout.close_at
    Service.subscribe_loop Service.decimate_of Service.sample_to_proto Service.keep_metrics
    Client.handle_sample Client.route_all Client.route Client.append_value Client.new_store
room = (omega arith, (omega arith, (omega arith, tt)))

charts_show_ticks_example :
    let s = run (load ∷ []) (just_opened whole {S = ℕ} 5 earlier 7) watching in
    (handled : List (TelemetrySample ℕ)) × (handled ++ (s.wire ++ waiting_for_call s)
      ≡ sampled (load ∷ []) 7 watching)
    × IsShown whole handled s.store
charts_show_ticks_example = charts_show_ticks (load ∷ []) 5 earlier 7 watching another_call room
