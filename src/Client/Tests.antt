-- ===== src/Client/Tests.antt =====
-- The models of the user interface at small inputs.
use hardware_panel.Base.{false, refl, ℕ, ◌+◌, ◌≡◌, [], ◌∷◌, String}
use hardware_panel.Base.Int.{pos}
use hardware_panel.Types.{MetricSample, TelemetrySample, EventMessage}
use hardware_panel.Client.{
  NotificationRow, Double, new_store, append_value, handle_sample, route, route_all,
}
use hardware_panel.Client.Models.{row_count, appends, clears}
use hardware_panel.Client.Models.Views.{read_rows, run_calls, run_view, view_follows}

abbrev event_at : String → EventMessage
event_at title = record { timestamp_ms = pos 0; level = "info"; title = title; message = "" }

abbrev row_at : String → NotificationRow
row_at title = record { time = "00:00:00"; level = "info"; title = title; message = "" }

abbrev whole : Double
whole = record { V = ℕ; zero_value = 0; add = λ x y. x + y }

abbrev metric : String → ℕ → MetricSample ℕ
metric id value = record { metric_id = id; value = value; unit = "" }

abbrev sample : TelemetrySample ℕ
sample = record {
  timestamp_ms = pos 1;
  metrics =
      metric "cpu.usage_pct" 7
      ∷ metric "disk.read_bps" 20
      ∷ metric "fan.rpm" 900
      ∷ metric "disk.write_bps" 3
      ∷ [];
}

view_follows_example :
    let cs = appends (event_at "one") ∷ clears ∷ appends (event_at "two") ∷ [] in
    let rows = run_calls (λ t. "00:00:00") cs [] in
    run_view (λ t. "00:00:00") cs [] [] ≡ read_rows rows 0 (row_count rows false)
view_follows_example =
    view_follows (λ t. "00:00:00")
      (appends (event_at "one") ∷ clears ∷ appends (event_at "two") ∷ [])

disk_adds : (handle_sample whole sample (new_store whole)).disk_io_bps.values ≡ 23 ∷ []
unfolding handle_sample route_all route append_value new_store
disk_adds = refl
