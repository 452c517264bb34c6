-- ===== src/Types.antt =====
-- The data that the components exchange: libs/core/include/hwpanel/core/telemetry_types.h,
-- `EventMessage` of event_bus.h and `Profile` of profile_store.h. A `double` is a value of an
-- abstract type `V`; the arithmetic on it is a parameter where it is used. `std::map` is an
-- association list in the order of its keys.
use hardware_panel.Base.{String, List}
use hardware_panel.Base.Int.{ℤ}

pub record MetricSample {ℓ} (V : Type ℓ) : Type ℓ where
  pub metric_id : String
  pub value : V
  pub unit : String

pub record TelemetrySample {ℓ} (V : Type ℓ) : Type ℓ where
  pub timestamp_ms : ℤ
  pub metrics : List (MetricSample V)

pub record EventMessage : Type 0 where
  pub timestamp_ms : ℤ
  pub level : String
  pub title : String
  pub message : String

pub record Profile : Type 0 where
  pub id : String
  pub name : String
  pub description : String
  pub settings : List (String × String)
