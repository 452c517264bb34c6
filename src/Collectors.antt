-- ===== src/Collectors.antt =====
-- plugins/collectors: the collectors of the service, over the answers of PDH, WMI and NVML. The
-- arithmetic on `double` is a record of operations.
pub mod Wmi
pub mod Nvml
pub mod Pdh
pub mod Gpu
mod Tests
use hardware_panel.Base.{ℕ}
use hardware_panel.Base.Int.{ℤ}

-- `literal n d` is the number n / 10 ^ d as it is written in the source, `of_int` and `of_unsigned`
-- are the conversions of the integer types.
pub record Numbers : Type 1 where
  pub V : Type 0
  pub literal : ℕ → ℕ → V
  pub of_int : ℤ → V
  pub of_unsigned : ℕ → V
  pub add : V → V → V
  pub sub : V → V → V
  pub mul : V → V → V
  pub div : V → V → V
