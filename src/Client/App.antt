-- ===== src/Client/App.antt =====
-- The commands of apps/hwpanel-client/backend/client_worker.cpp, and apps/hwpanel-client/main.cpp,
-- which connects the worker's signals to the models.
pub mod Arrival
pub mod Switch
mod Tests
use hardware_panel.Base.{
  String, Bool, true, false, List, [], ◌∷◌, ◌++◌, Option, none, some, if◌then◌else◌, map,
}
use hardware_panel.Base.Int.{ℤ}
use hardware_panel.Types.{TelemetrySample, EventMessage, Profile}
use hardware_panel.Channel.{ConnectionState}
use hardware_panel.Client.{
  Double, TelemetryStore, handle_sample, new_store, ProfileRow, ProfileModel, set_profiles,
  NotificationRow, append_notification, ConnectionStatus, initial_status, status_of,
}

-- What a unary call ends with: an error and its message, or the response.
pub data Reply (R : Type 0) : Type 0 where
  failed : String → Reply R
  answered : R → Reply R

-- The signals of `ClientWorker`.
pub data Signal (V : Type 0) : Type 0 where
  sample_received : TelemetrySample V → Signal V
  event_received : EventMessage → Signal V
  profiles_received : List ProfileRow → String → Signal V
  switch_result : Bool → String → Signal V
  connection_changed : ConnectionState → Signal V

abbrev pub row_of : Profile → ProfileRow
row_of p = record { id = p.id; name = p.name; description = p.description }

module _ {V : Type 0} where
  -- `RefreshProfilesInternal`; the flag is whether the channel is not null.
  unfoldable pub refresh_profiles : Bool → Reply (List Profile × String) → List (Signal V)
  refresh_profiles false reply = []
  refresh_profiles true (failed message) = []
  refresh_profiles true (answered (profiles, active)) =
      profiles_received (map row_of profiles) active ∷ []

  -- `SwitchProfileInternal`; `listed` is the answer to the call of `RefreshProfilesInternal`, whose
  -- flag is `still`.
  unfoldable pub switch_profile :
      Bool → Reply (Bool × String) → Bool → Reply (List Profile × String) → List (Signal V)
  unfolding refresh_profiles
  switch_profile false reply still listed = switch_result false "not connected" ∷ []
  switch_profile true (failed message) still listed = switch_result false message ∷ []
  switch_profile true (answered (ok, message)) still listed =
      switch_result ok message ∷ (if ok then refresh_profiles still listed else [])

module _ (double : Double) where
  open double use {V}

  pub record Models : Type 0 where
    pub telemetry : TelemetryStore double
    pub profiles : ProfileModel
    pub notifications : List NotificationRow
    pub connection : ConnectionStatus

  abbrev pub new_models : Models
  new_models = record {
    telemetry = new_store double;
    profiles = record { rows = []; active_id = "" };
    notifications = [];
    connection = initial_status;
  }

  -- The `connect` calls of `main`: `now` is currentMSecsSinceEpoch, `clock_text` as in the model.
  unfoldable pub deliver : (ℤ → String) → ℤ → Signal V → Models → Models
  deliver clock_text now (sample_received sample) m = record m {
    telemetry = handle_sample double sample m.telemetry;
  }
  deliver clock_text now (event_received event) m = record m {
    notifications = append_notification clock_text event m.notifications;
  }
  deliver clock_text now (profiles_received rows active) m = record m {
    profiles = set_profiles rows active m.profiles;
  }
  deliver clock_text now (switch_result ok message) m =
      let event : EventMessage = record {
        timestamp_ms = now;
        level = if ok then "info" else "warn";
        title = if ok then "Profile switch" else "Profile switch failed";
        message = message;
      } in
      record m { notifications = append_notification clock_text event m.notifications }
  deliver clock_text now (connection_changed state) m = record m { connection = status_of state }

  unfoldable pub deliver_all : (ℤ → String) → ℤ → List (Signal V) → Models → Models
  unfolding deliver
  deliver_all clock_text now [] m = m
  deliver_all clock_text now (s ∷ signals) m =
      deliver_all clock_text now signals (deliver clock_text now s m)
