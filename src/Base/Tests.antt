-- ===== src/Base/Tests.antt =====
-- Boolean tests on native numbers and on texts, the conditional, and splits that keep their equation.
use Prim.Native.Nat.{ℕ, ◌<◌, ◌≤◌, compare, Ordering}
use Prim.Native.String.{String}
use Prim.Native.String
use mathlib.Core.Path.{◌≡◌, refl}
use mathlib.Core.Logic.{◌↔◌, ◌≢◌, ◌⊎◌, inl, inr}
use mathlib.Core.Bool.{Bool, true, false}
use mathlib.Core.Option.{Option, none, some}
use native.Mathlib.Omega.{arith}
use text.Mathlib.Text.{◌==◌ as text_test}
use text.Mathlib.TextEquality.{eq_iff}

abbrev pub ltb : ℕ → ℕ → Bool
ltb a b = elim (compare a b) [ Ordering.lt ↦ true | _ ↦ false ]

abbrev pub leb : ℕ → ℕ → Bool
leb a b = elim (compare a b) [ Ordering.gt ↦ false | _ ↦ true ]

infix 50 ◌==◌
abbrev pub ◌==◌ : ℕ → ℕ → Bool
a == b = elim (compare a b) [ Ordering.eq ↦ true | _ ↦ false ]

infix 1 if◌then◌else◌
abbrev pub if◌then◌else◌ {ℓ} : {A : Type ℓ} → Bool → A → A → A
if true then x else y = x
if false then x else y = y

pub lt→ltb : (a b : ℕ) → a < b → ltb a b ≡ true
lt→ltb a b h = ground arith

pub le→ltb : (a b : ℕ) → b ≤ a → ltb a b ≡ false
le→ltb a b h = ground arith

pub ==_iff : (a b : ℕ) → ((a == b) ≡ true) ↔ (a ≡ b)
==_iff a b = ground arith

pub ==_ne : (a b : ℕ) → a ≢ b → (a == b) ≡ false
==_ne a b h = ground arith

pub Bool-cases : (b : Bool) → (b ≡ true) ⊎ (b ≡ false)
Bool-cases true = inl refl
Bool-cases false = inr refl

pub Option-cases {ℓ} : {A : Type ℓ} (o : Option A) → (o ≡ none) ⊎ ((a : A) × (o ≡ some a))
Option-cases none = inl refl
Option-cases (some a) = inr (a, refl)

-- `std::string` equality, under a name of its own beside the test on numbers.
abbrev pub str_eq : String → String → Bool
str_eq = text_test

pub str_eq_iff : (s t : String) → (str_eq s t ≡ true) ↔ (s ≡ t)
str_eq_iff = eq_iff

pub str_eq_refl : (s : String) → str_eq s s ≡ true
str_eq_refl s = (eq_iff s s).1 refl

pub str_eq-ne : (s t : String) → s ≢ t → str_eq s t ≡ false
str_eq-ne s t h = elim (Bool-cases (str_eq s t)) [
  | inl e ↦ absurd (h ((eq_iff s t).0 e))
  | inr e ↦ e
]

-- `std::string` concatenation.
infixr 66 ◌&◌
abbrev pub ◌&◌ : String → String → String
s & t = String.◌++◌ s t
