-- ===== src/System/Charts.antt =====
-- What the charts of the client show of the ticks.
use hardware_panel.Base.{◌≡◌, refl, ap, sym, ◌∙◌, String, List, [], ◌∷◌, ◌++◌, ℕ, arith, take_last}
use hardware_panel.Types.{MetricSample, TelemetrySample}
use hardware_panel.Pipeline.{Collector}
use hardware_panel.Fanout.{Op}
use hardware_panel.Client.{
  Double, MetricSeries, TelemetryStore, new_series, new_store, append_value, handle_sample,
}
use hardware_panel.Client.Bounds.{append_all, append_all-values}
use hardware_panel.Client.Routing.{values_of, Routed, handle_sample-Routed}
use hardware_panel.System.{Move, handle_all, run, sampled}
use hardware_panel.System.Shown.{IsApart, KeepsUp, waiting_for_call, just_opened, run-ledger}

abbrev pub metrics_of : {V : Type 0} → List (TelemetrySample V) → List (MetricSample V)
metrics_of [] = []
metrics_of (x ∷ xs) = x.metrics ++ metrics_of xs

module _ (double : Double) where
  open double use {V}

  values_of-append :
      (id : String) (ms ns : List (MetricSample V))
      → values_of double id (ms ++ ns) ≡ values_of double id ms ++ values_of double id ns
  values_of-append id [] ns = refl
  values_of-append id (m ∷ ms) ns = ground (arith, values_of-append id ms ns)

  append_all-append :
      (xs ys : List V) (s : MetricSeries double)
      → append_all (xs ++ ys) s ≡ append_all ys (append_all xs s)
  append_all-append [] ys s = refl
  append_all-append (x ∷ xs) ys s = append_all-append xs ys (append_value double x s)

  append_all-after :
      (id : String) (ms ns : List (MetricSample V)) (s s' : MetricSeries double)
      → s' ≡ append_all (values_of double id ms) s
      → append_all (values_of double id ns) s' ≡ append_all (values_of double id (ms ++ ns)) s
  append_all-after id ms ns s s' e =
      ap (append_all (values_of double id ns)) e
      ∙ (sym (append_all-append (values_of double id ms) (values_of double id ns) s)
          ∙ ap (λ l. append_all l s) (sym (values_of-append id ms ns)))

  -- The samples one after the other route like their metrics in one row.
  handle_all-Routed :
      (xs : List (TelemetrySample V)) (t : TelemetryStore double)
      → Routed double (metrics_of xs) t (handle_all xs t)
  handle_all-Routed [] t = record {
    cpu = refl;
    gpu = refl;
    mem = refl;
    cpu_temp = refl;
    gpu_temp = refl;
  }
  handle_all-Routed (x ∷ xs) t =
      let here = (handle_sample-Routed double x t).0 in
      let there = handle_all-Routed xs (handle_sample double x t) in
      record {
        cpu = there.cpu ∙ append_all-after _ x.metrics (metrics_of xs) _ _ here.cpu;
        gpu = there.gpu ∙ append_all-after _ x.metrics (metrics_of xs) _ _ here.gpu;
        mem = there.mem ∙ append_all-after _ x.metrics (metrics_of xs) _ _ here.mem;
        cpu_temp = there.cpu_temp ∙ append_all-after _ x.metrics (metrics_of xs) _ _ here.cpu_temp;
        gpu_temp = there.gpu_temp ∙ append_all-after _ x.metrics (metrics_of xs) _ _ here.gpu_temp;
      }

  -- The last 60 values of one metric.
  abbrev pub last_values : String → List (TelemetrySample V) → List V
  last_values id xs = take_last 60 (values_of double id (metrics_of xs))

  series_shows :
      (id unit : String) (metric : String) (xs : List (TelemetrySample V))
      → (append_all (values_of double metric (metrics_of xs)) (new_series double id unit)).values
        ≡ last_values metric xs
  series_shows id unit metric xs =
      append_all-values (values_of double metric (metrics_of xs)) (new_series double id unit)
        (omega arith) (omega arith)

  -- The five plain charts of a client, of the samples `xs`.
  pub record IsShown (xs : List (TelemetrySample V)) (t : TelemetryStore double) : Type 0 where
    pub cpu_usage : t.cpu_usage.values ≡ last_values "cpu.usage_pct" xs
    pub gpu_usage : t.gpu_usage.values ≡ last_values "gpu.util_pct" xs
    pub mem_used_mb : t.mem_used_mb.values ≡ last_values "mem.used_mb" xs
    pub cpu_temp_c : t.cpu_temp_c.values ≡ last_values "cpu.temp_c" xs
    pub gpu_temp_c : t.gpu_temp_c.values ≡ last_values "gpu.temp_c" xs

  handle_all-IsShown :
      (xs : List (TelemetrySample V)) → IsShown xs (handle_all xs (new_store double))
  unfolding new_store
  handle_all-IsShown xs =
      let r = handle_all-Routed xs (new_store double) in
      record {
        cpu_usage = ap (λ s. s.values) r.cpu ∙ series_shows _ _ _ xs;
        gpu_usage = ap (λ s. s.values) r.gpu ∙ series_shows _ _ _ xs;
        mem_used_mb = ap (λ s. s.values) r.mem ∙ series_shows _ _ _ xs;
        cpu_temp_c = ap (λ s. s.values) r.cpu_temp ∙ series_shows _ _ _ xs;
        gpu_temp_c = ap (λ s. s.values) r.gpu_temp ∙ series_shows _ _ _ xs;
      }

module _ {double : Double} {S : Type 0} (collectors : List (Collector S double.V)) where
  open double use {V}

  -- A client opens a telemetry stream, at 1.0 Hz and without a filter, at a hub with any history. Then
  -- ticks, rounds of the call, steps of the client's thread and steps of other calls follow in any
  -- order, such that each tick finds room in the call's queue, the client does not cancel and no
  -- write fails. Then the samples of the ticks are, in order, those that the client has handled,
  -- those on the wire and those in the queue, and each of the five plain charts shows the last 60
  -- values of its metric in the samples that the client has handled.
  pub charts_show_ticks :
      (cap : ℕ) (before : List (Op (TelemetrySample V))) (machine : S)
      (ms : List (Move (TelemetrySample V)))
      → IsApart (just_opened double cap before machine).call ms
      → KeepsUp collectors (just_opened double cap before machine) ms
      → let s = run collectors (just_opened double cap before machine) ms in
        (handled : List (TelemetrySample V)) × (handled ++ (s.wire ++ waiting_for_call s)
          ≡ sampled collectors machine ms)
        × IsShown double handled s.store
  charts_show_ticks cap before machine ms apart keeps =
      let (handled, ledger, store) = run-ledger collectors cap before machine ms apart keeps in
      (handled, ledger, rw store (handle_all-IsShown double handled))
