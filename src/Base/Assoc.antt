-- ===== src/Base/Assoc.antt =====
-- Association lists with texts for keys, and the order of `std::string`.
use Prim.Native.Char.{code}
use Prim.Native.String.{String}
use Prim.Native.Nat.{compare, Ordering}
use mathlib.Core.Path.{◌≡◌, refl}
use mathlib.Core.Bool.{Bool, true, false}
use mathlib.Core.Option.{Option, none, some}
use mathlib.Core.List.{List, [], ◌∷◌}
use native.Mathlib.Omega.{arith}
use hardware_panel.Base.Tests.{str_eq, str_eq_iff, if◌then◌else◌}

module _ {ℓ} {V : Type ℓ} where
  unfoldable pub lookup : String → List (String × V) → Option V
  lookup k [] = none
  lookup k ((j, v) ∷ m) = if str_eq j k then some v else lookup k m

  -- A new key goes to the end.
  unfoldable pub insert : String → V → List (String × V) → List (String × V)
  insert k v [] = (k, v) ∷ []
  insert k v ((j, w) ∷ m) = if str_eq j k then (k, v) ∷ m else (j, w) ∷ insert k v m

  unfoldable pub erase : String → List (String × V) → List (String × V)
  erase k [] = []
  erase k ((j, v) ∷ m) = if str_eq j k then erase k m else (j, v) ∷ erase k m

module _ {V : Type 0} where
  pub lookup-insert :
      (k j : String) (v : V) (m : List (String × V))
      → lookup j (insert k v m) ≡ (if str_eq k j then some v else lookup j m)
  unfolding lookup insert
  lookup-insert k j v [] = refl
  lookup-insert k j v ((i, w) ∷ m) =
      ground (arith, str_eq_iff k j, str_eq_iff i k, str_eq_iff i j, lookup-insert k j v m)

  pub lookup-erase :
      (k j : String) (m : List (String × V))
      → lookup j (erase k m) ≡ (if str_eq k j then none else lookup j m)
  unfolding lookup erase
  lookup-erase k j [] = ground arith
  lookup-erase k j ((i, w) ∷ m) =
      ground (arith, str_eq_iff k j, str_eq_iff i k, str_eq_iff i j, lookup-erase k j m)

-- `a < b` for `std::string`: by the first character that differs. On UTF-8 text the order of the
-- bytes is the order of the code points.
abbrev pub str_lt : String → String → Bool
str_lt String.[] String.[] = false
str_lt String.[] (String.◌∷◌ d t) = true
str_lt (String.◌∷◌ c s) String.[] = false
str_lt (String.◌∷◌ c s) (String.◌∷◌ d t) = elim (compare (code c) (code d)) [
  | Ordering.lt ↦ true
  | Ordering.eq ↦ str_lt s t
  | Ordering.gt ↦ false
]
