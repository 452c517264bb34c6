-- ===== src/Executors.antt =====
-- plugins/executors/executor.h: the contract of an executor, over the state `W` of the machine that
-- its calls read and change.
pub mod Brightness
pub mod Power
mod Tests
use hardware_panel.Base.{String, Bool}

pub record ApplyResult : Type 0 where
  pub ok : Bool
  pub message : String

-- `CurrentValue` reads the live state and changes nothing.
pub record Executor (W : Type 0) : Type 0 where
  pub key : String
  pub available : W → Bool
  pub current_value : W → String
  pub apply : String → W → ApplyResult × W
