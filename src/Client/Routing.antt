-- ===== src/Client/Routing.antt =====
-- Which series the metrics of a sample reach.
use hardware_panel.Base.{
  ◌≡◌, refl, ap, sym, ◌∙◌, List, [], ◌∷◌, Option, none, some, String, false, ◌||◌, ◌&&◌, str_eq,
  str_eq_iff, if◌then◌else◌, arith,
}
use hardware_panel.Types.{MetricSample, TelemetrySample}
use hardware_panel.Client.{
  Double, append_value, TelemetryStore, route, route_all, finish, handle_sample,
}
use hardware_panel.Client.Bounds.{append_all}

-- A text is not two different ones.
apart : (x a b : String) → str_eq a b ≡ false → (str_eq x a && str_eq x b) ≡ false
apart x a b ne = ground (arith, str_eq_iff x a, str_eq_iff x b, str_eq_iff a b)

module _ (double : Double) where
  open double use {V, zero_value, add}

  -- The values of one metric.
  abbrev pub values_of : String → List (MetricSample V) → List V
  values_of id [] = []
  values_of id (m ∷ ms) =
      let rest = values_of id ms in if str_eq m.metric_id id then m.value ∷ rest else rest

  -- The sum of the disk metrics, from `sum` on; `none` without any.
  abbrev pub disk_sum : List (MetricSample V) → Option V → Option V
  disk_sum [] sum = sum
  disk_sum (m ∷ ms) sum =
      let with_m = disk_sum ms (some (add (elim sum [ none ↦ zero_value | some d ↦ d ]) m.value)) in
      let without = disk_sum ms sum in
      if str_eq m.metric_id "disk.read_bps" || str_eq m.metric_id "disk.write_bps"
      then with_m
      else without

  -- One step of the routing is one step of `values_of` for the series `get_series` of metric `id`.
  route-cpu_usage :
      (m : MetricSample V) (ms : List (MetricSample V)) (t : TelemetryStore double) (sum : Option V)
      → append_all (values_of "cpu.usage_pct" ms) (route double m (t, sum)).0.cpu_usage
        ≡ append_all (values_of "cpu.usage_pct" (m ∷ ms)) t.cpu_usage
  unfolding route
  route-cpu_usage m ms t sum = ground arith

  route-gpu_usage :
      (m : MetricSample V) (ms : List (MetricSample V)) (t : TelemetryStore double) (sum : Option V)
      → append_all (values_of "gpu.util_pct" ms) (route double m (t, sum)).0.gpu_usage
        ≡ append_all (values_of "gpu.util_pct" (m ∷ ms)) t.gpu_usage
  unfolding route
  route-gpu_usage m ms t sum = ground (arith, apart m.metric_id "cpu.usage_pct" "gpu.util_pct" refl)

  route-mem_used_mb :
      (m : MetricSample V) (ms : List (MetricSample V)) (t : TelemetryStore double) (sum : Option V)
      → append_all (values_of "mem.used_mb" ms) (route double m (t, sum)).0.mem_used_mb
        ≡ append_all (values_of "mem.used_mb" (m ∷ ms)) t.mem_used_mb
  unfolding route
  route-mem_used_mb m ms t sum = ground (
    arith,
    apart m.metric_id "cpu.usage_pct" "mem.used_mb" refl,
    apart m.metric_id "gpu.util_pct" "mem.used_mb" refl,
  )

  route-cpu_temp_c :
      (m : MetricSample V) (ms : List (MetricSample V)) (t : TelemetryStore double) (sum : Option V)
      → append_all (values_of "cpu.temp_c" ms) (route double m (t, sum)).0.cpu_temp_c
        ≡ append_all (values_of "cpu.temp_c" (m ∷ ms)) t.cpu_temp_c
  unfolding route
  route-cpu_temp_c m ms t sum = ground (
    arith,
    apart m.metric_id "cpu.usage_pct" "cpu.temp_c" refl,
    apart m.metric_id "gpu.util_pct" "cpu.temp_c" refl,
    apart m.metric_id "mem.used_mb" "cpu.temp_c" refl,
  )

  route-gpu_temp_c :
      (m : MetricSample V) (ms : List (MetricSample V)) (t : TelemetryStore double) (sum : Option V)
      → append_all (values_of "gpu.temp_c" ms) (route double m (t, sum)).0.gpu_temp_c
        ≡ append_all (values_of "gpu.temp_c" (m ∷ ms)) t.gpu_temp_c
  unfolding route
  route-gpu_temp_c m ms t sum = ground (
    arith,
    apart m.metric_id "cpu.usage_pct" "gpu.temp_c" refl,
    apart m.metric_id "gpu.util_pct" "gpu.temp_c" refl,
    apart m.metric_id "mem.used_mb" "gpu.temp_c" refl,
    apart m.metric_id "cpu.temp_c" "gpu.temp_c" refl,
  )

  route-disk_sum :
      (m : MetricSample V) (ms : List (MetricSample V)) (t : TelemetryStore double) (sum : Option V)
      → disk_sum ms (route double m (t, sum)).1 ≡ disk_sum (m ∷ ms) sum
  unfolding route
  route-disk_sum m ms t sum = ground (
    arith,
    apart m.metric_id "cpu.usage_pct" "disk.read_bps" refl,
    apart m.metric_id "gpu.util_pct" "disk.read_bps" refl,
    apart m.metric_id "mem.used_mb" "disk.read_bps" refl,
    apart m.metric_id "cpu.temp_c" "disk.read_bps" refl,
    apart m.metric_id "gpu.temp_c" "disk.read_bps" refl,
    apart m.metric_id "cpu.usage_pct" "disk.write_bps" refl,
    apart m.metric_id "gpu.util_pct" "disk.write_bps" refl,
    apart m.metric_id "mem.used_mb" "disk.write_bps" refl,
    apart m.metric_id "cpu.temp_c" "disk.write_bps" refl,
    apart m.metric_id "gpu.temp_c" "disk.write_bps" refl,
  )

  route-disk_io_bps :
      (m : MetricSample V) (t : TelemetryStore double) (sum : Option V)
      → (route double m (t, sum)).0.disk_io_bps ≡ t.disk_io_bps
  unfolding route
  route-disk_io_bps m t sum = ground arith

  -- Where the loop over the metrics ends.
  pub record Routed (ms : List (MetricSample V)) (t t' : TelemetryStore double) : Type 0 where
    pub cpu : t'.cpu_usage ≡ append_all (values_of "cpu.usage_pct" ms) t.cpu_usage
    pub gpu : t'.gpu_usage ≡ append_all (values_of "gpu.util_pct" ms) t.gpu_usage
    pub mem : t'.mem_used_mb ≡ append_all (values_of "mem.used_mb" ms) t.mem_used_mb
    pub cpu_temp : t'.cpu_temp_c ≡ append_all (values_of "cpu.temp_c" ms) t.cpu_temp_c
    pub gpu_temp : t'.gpu_temp_c ≡ append_all (values_of "gpu.temp_c" ms) t.gpu_temp_c

  route_all-Routed :
      (ms : List (MetricSample V)) (t : TelemetryStore double) (sum : Option V)
      → Routed ms t (route_all double ms (t, sum)).0
        × ((route_all double ms (t, sum)).0.disk_io_bps ≡ t.disk_io_bps)
        × ((route_all double ms (t, sum)).1 ≡ disk_sum ms sum)
  unfolding route_all
  route_all-Routed [] t sum =
      (record { cpu = refl; gpu = refl; mem = refl; cpu_temp = refl; gpu_temp = refl }, refl, refl)
  route_all-Routed (m ∷ ms) t sum =
      let (r, d, s) = route_all-Routed ms (route double m (t, sum)).0 (route double m (t, sum)).1 in
      (
        record {
          cpu = r.cpu ∙ route-cpu_usage m ms t sum;
          gpu = r.gpu ∙ route-gpu_usage m ms t sum;
          mem = r.mem ∙ route-mem_used_mb m ms t sum;
          cpu_temp = r.cpu_temp ∙ route-cpu_temp_c m ms t sum;
          gpu_temp = r.gpu_temp ∙ route-gpu_temp_c m ms t sum;
        },
        d ∙ route-disk_io_bps m t sum,
        s ∙ route-disk_sum m ms t sum,
      )

  -- A sample's metrics reach the series of their own id only, in order: each of the five plain series
  -- has the values of its metric appended, and the disk series has one value appended, the sum of
  -- all read and write metrics, or none if the sample has no disk metric.
  pub handle_sample-Routed :
      (sample : TelemetrySample V) (t : TelemetryStore double)
      → let t' = handle_sample double sample t in
        Routed sample.metrics t t'
        × (t'.disk_io_bps ≡ elim (disk_sum sample.metrics none) [
          | none ↦ t.disk_io_bps
          | some d ↦ append_value double d t.disk_io_bps
        ])
  unfolding handle_sample
  handle_sample-Routed sample t =
      let p = route_all-Routed sample.metrics t none in
      finished (route_all double sample.metrics (t, none)) p.0 p.1 p.2
    where
      finished :
          (u : TelemetryStore double × Option V)
          → Routed sample.metrics t u.0
          → u.0.disk_io_bps ≡ t.disk_io_bps
          → u.1 ≡ disk_sum sample.metrics none
          → Routed sample.metrics t (finish double u)
            × ((finish double u).disk_io_bps ≡ elim (disk_sum sample.metrics none) [
              | none ↦ t.disk_io_bps
              | some d ↦ append_value double d t.disk_io_bps
            ])
      finished (u, none) r d s = rw (sym s) (r, d)
      finished (u, some x) r d s = rw (sym s) (
        record {
          cpu = r.cpu;
          gpu = r.gpu;
          mem = r.mem;
          cpu_temp = r.cpu_temp;
          gpu_temp = r.gpu_temp;
        },
        ap (append_value double x) d,
      )
