-- ===== src/Client.antt =====
-- apps/hwpanel-client/backend: the models behind the user interface. A Qt signal is left out where
-- it only redraws; `double` is an abstract type with its zero and addition.
pub mod Bounds
pub mod Routing
pub mod Worker
pub mod Chart
pub mod App
pub mod Models
mod Tests
use hardware_panel.Base.{
  ℕ, ◌-◌, String, Bool, true, false, ◌||◌, List, [], ◌∷◌, ◌++◌, Option, none, some, str_eq, ltb,
  leb, if◌then◌else◌, length, get_elem?, take, drop, map,
}
use hardware_panel.Base.Int.{ℤ, pos, negsuc}
use hardware_panel.Channel.{ConnectionState, to_string}
use hardware_panel.Types.{MetricSample, TelemetrySample, EventMessage}

-- notification_model.cpp. `clock_text` is the Qt formatting of a time stamp as HH:mm:ss.
pub record NotificationRow : Type 0 where
  pub time : String
  pub level : String
  pub title : String
  pub message : String

abbrev pub max_rows : ℕ
max_rows = 50

-- `removeLast`.
abbrev pub drop_last {ℓ} : {A : Type ℓ} → List A → List A
drop_last xs = take (length xs - 1) xs

unfoldable pub append_notification :
    (ℤ → String) → EventMessage → List NotificationRow → List NotificationRow
append_notification clock_text event rows =
    let row : NotificationRow = record {
      time = clock_text event.timestamp_ms;
      level = event.level;
      title = event.title;
      message = event.message;
    } in
    let rows' = row ∷ rows in if ltb max_rows (length rows') then drop_last rows' else rows'

unfoldable pub clear_notifications : List NotificationRow → List NotificationRow
clear_notifications rows = []

-- connection_status.cpp: `static_cast<ConnectionState>` of the signal's value.
pub record ConnectionStatus : Type 0 where
  pub connected : Bool
  pub text : String
  pub color : String

abbrev pub initial_status : ConnectionStatus
initial_status = record { connected = false; text = "connecting"; color = "#f0a030" }

unfoldable pub status_of : ConnectionState → ConnectionStatus
status_of ConnectionState.connected = record {
  connected = true;
  text = to_string ConnectionState.connected;
  color = "#3ddc84";
}
status_of ConnectionState.connecting = record {
  connected = false;
  text = to_string ConnectionState.connecting;
  color = "#f0a030";
}
status_of ConnectionState.disconnected = record {
  connected = false;
  text = to_string ConnectionState.disconnected;
  color = "#e5484d";
}

-- profile_model.cpp.
pub record ProfileRow : Type 0 where
  pub id : String
  pub name : String
  pub description : String

pub record ProfileModel : Type 0 where
  pub rows : List ProfileRow
  pub active_id : String

unfoldable pub set_profiles : List ProfileRow → String → ProfileModel → ProfileModel
set_profiles profiles active_id m = record { rows = profiles; active_id = active_id }

-- `data(index, ActiveRole)`: `none` for an index out of range.
unfoldable pub is_active_at : ProfileModel → ℕ → Option Bool
is_active_at m i = elim (get_elem? m.rows i) [
  | none ↦ none
  | some row ↦ some (str_eq row.id m.active_id)
]

-- telemetry_store.cpp.
pub record Double : Type 1 where
  pub V : Type 0
  pub zero_value : V
  pub add : V → V → V

module _ (double : Double) where
  open double use {V, zero_value, add}

  pub record MetricSeries : Type 0 where
    pub id : String
    pub unit : String
    pub capacity : ℕ
    pub values : List V
    pub latest : V

  abbrev pub new_series : String → String → MetricSeries
  new_series id unit = record {
    id = id;
    unit = unit;
    capacity = 60;
    values = [];
    latest = zero_value;
  }

  unfoldable pub append_value : V → MetricSeries → MetricSeries
  append_value value s = record s {
    values = (if leb s.capacity (length s.values) then drop 1 s.values else s.values) ++ value ∷ [];
    latest = value;
  }

  pub record TelemetryStore : Type 0 where
    pub cpu_usage : MetricSeries
    pub gpu_usage : MetricSeries
    pub mem_used_mb : MetricSeries
    pub disk_io_bps : MetricSeries
    pub cpu_temp_c : MetricSeries
    pub gpu_temp_c : MetricSeries

  unfoldable pub new_store : TelemetryStore
  new_store = record {
    cpu_usage = new_series "cpu.usage_pct" "%";
    gpu_usage = new_series "gpu.util_pct" "%";
    mem_used_mb = new_series "mem.used_mb" "MB";
    disk_io_bps = new_series "disk.io_bps" "B/s";
    cpu_temp_c = new_series "cpu.temp_c" "°C";
    gpu_temp_c = new_series "gpu.temp_c" "°C";
  }

  -- The `if` chain for one metric, with the sum `disk_io` (`none` while `have_disk` is false).
  unfoldable pub route : MetricSample V → TelemetryStore × Option V → TelemetryStore × Option V
  route m (t, disk_io) =
      if str_eq m.metric_id "cpu.usage_pct"
      then (record t { cpu_usage = append_value m.value t.cpu_usage }, disk_io)
      else if str_eq m.metric_id "gpu.util_pct"
      then (record t { gpu_usage = append_value m.value t.gpu_usage }, disk_io)
      else if str_eq m.metric_id "mem.used_mb"
      then (record t { mem_used_mb = append_value m.value t.mem_used_mb }, disk_io)
      else if str_eq m.metric_id "cpu.temp_c"
      then (record t { cpu_temp_c = append_value m.value t.cpu_temp_c }, disk_io)
      else if str_eq m.metric_id "gpu.temp_c"
      then (record t { gpu_temp_c = append_value m.value t.gpu_temp_c }, disk_io)
      else if str_eq m.metric_id "disk.read_bps" || str_eq m.metric_id "disk.write_bps"
      then (t, some (add (elim disk_io [ none ↦ zero_value | some d ↦ d ]) m.value))
      else (t, disk_io)

  unfoldable pub route_all :
      List (MetricSample V) → TelemetryStore × Option V → TelemetryStore × Option V
  unfolding route
  route_all [] s = s
  route_all (m ∷ ms) s = route_all ms (route m s)

  abbrev pub finish : TelemetryStore × Option V → TelemetryStore
  finish (t, none) = t
  finish (t, some d) = record t { disk_io_bps = append_value d t.disk_io_bps }

  unfoldable pub handle_sample : TelemetrySample V → TelemetryStore → TelemetryStore
  unfolding route_all
  handle_sample sample t = finish (route_all sample.metrics (t, none))
