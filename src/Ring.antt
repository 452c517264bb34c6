-- ===== src/Ring.antt =====
-- libs/core/include/hwpanel/core/ring_buffer.h: the fixed-capacity circular buffer that keeps the
-- telemetry history. Each method runs under the buffer's mutex, so it is one step here; `size_t`
-- and `uint64_t` arithmetic is modulo 2 ^ 64.
pub mod Refine
mod Tests
use hardware_panel.Base.{
  ℕ, zero, suc, ◌+◌, ◌-◌, ◌%◌, ◌^◌, min, List, [], ◌∷◌, ◌++◌, Option, none, some, ltb, ◌==◌,
  if◌then◌else◌, length, get_elem?, set,
}

-- `mutex_` has no field: a method is one step.
pub record Ring {ℓ} (A : Type ℓ) : Type ℓ where
  pub buf : List A
  pub head : ℕ
  pub total : ℕ
  pub cap : ℕ

abbrev pub word : ℕ
word = 2 ^ 64

-- The capacity that the constructor gives: never 0.
abbrev pub effective : ℕ → ℕ
effective capacity = if capacity == 0 then 1 else capacity

module _ {ℓ} {A : Type ℓ} where
  unfoldable pub new : ℕ → Ring A
  new capacity = record { buf = []; head = 0; total = 0; cap = effective capacity }

  unfoldable pub push : Ring A → A → Ring A
  push r v =
      if ltb (length r.buf) r.cap
      then record r { buf = r.buf ++ v ∷ []; total = (r.total + 1) % word }
      else record r {
        buf = set r.buf r.head v;
        head = (r.head + 1) % word % r.cap;
        total = (r.total + 1) % word;
      }

  unfoldable pub size : Ring A → ℕ
  size r = length r.buf

  unfoldable pub capacity : Ring A → ℕ
  capacity r = r.cap

  unfoldable pub total_pushed : Ring A → ℕ
  total_pushed r = r.total

  -- The loop of `LastN` with `k` rounds left, at index `i`. A read outside the vector is `none`.
  unfoldable pub collect : Ring A → ℕ → ℕ → Option (List A)
  collect r zero i = some []
  collect r (suc k) i = elim (get_elem? r.buf ((r.head + i) % word % r.cap)) [
    | none ↦ none
    | some x ↦ elim (collect r k (i + 1)) [ none ↦ none | some xs ↦ some (x ∷ xs) ]
  ]

  unfoldable pub last_n : Ring A → ℕ → Option (List A)
  last_n r n = let count = min n (length r.buf) in collect r count (length r.buf - count)

  unfoldable pub all : Ring A → Option (List A)
  all r = last_n r (size r)

  unfoldable pub clear : Ring A → Ring A
  clear r = record r { buf = []; head = 0; total = 0 }

-- A client's calls that change the buffer, in order.
pub data Op {ℓ} (A : Type ℓ) : Type ℓ where
  pushes : A → Op A
  clears : Op A

module _ {ℓ} {A : Type ℓ} where
  unfoldable pub step : Ring A → Op A → Ring A
  step r (pushes v) = push r v
  step r clears = clear r

  unfoldable pub run : Ring A → List (Op A) → Ring A
  run r [] = r
  run r (o ∷ os) = run (step r o) os
