-- ===== src/Base/Int.antt =====
-- Signed integers over the native numbers, as far as the program's `int` parameters need them.
use Prim.Native.Nat.{ℕ, ◌^◌, ◌-◌, ◌%◌}
use mathlib.Core.Bool.{Bool, true, false}
use hardware_panel.Base.Tests.{ltb, if◌then◌else◌}

-- `negsuc n` is -(n + 1).
pub data ℤ : Type 0 where
  pos : ℕ → ℤ
  negsuc : ℕ → ℤ

-- `a < b`.
abbrev pub int_lt : ℤ → ℤ → Bool
int_lt (pos m) (pos n) = ltb m n
int_lt (pos m) (negsuc n) = false
int_lt (negsuc m) (pos n) = true
int_lt (negsuc m) (negsuc n) = ltb n m

-- `static_cast<int>` of a `size_t`: the low 32 bits, read as two's complement.
abbrev pub int_of_size : ℕ → ℤ
int_of_size n =
    if ltb (n % 2 ^ 32) (2 ^ 31) then pos (n % 2 ^ 32) else negsuc (2 ^ 32 - (n % 2 ^ 32) - 1)

-- `static_cast<std::size_t>` of an `int`: 64 bits.
abbrev pub size_of_int : ℤ → ℕ
size_of_int (pos n) = n % 2 ^ 64
size_of_int (negsuc n) = 2 ^ 64 - 1 - n % 2 ^ 64
