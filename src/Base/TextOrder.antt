-- ===== src/Base/TextOrder.antt =====
-- The order of `std::string` is a strict total order.
use Prim.Native.Char.{Char, code}
use Prim.Native.String.{String}
use Prim.Native.Nat.{ℕ, compare, Ordering, ◌<◌}
use native.Mathlib.Omega.{arith, compare-lt, compare-eq, compare-gt}
use text.Mathlib.TextEquality.{Char-path}
use mathlib.Core.Path.{◌≡◌, refl, sym, ◌∙◌, ap₂}
use mathlib.Core.Bool.{Bool, true, false}
use hardware_panel.Base.Assoc.{str_lt}

-- The three answers of `compare`, with what each tells.
data Compared (a b : ℕ) : Type 0 where
  less : compare a b ≡ Ordering.lt → a < b → Compared a b
  same : compare a b ≡ Ordering.eq → a ≡ b → Compared a b
  more : compare a b ≡ Ordering.gt → b < a → Compared a b

compared : (a b : ℕ) → Compared a b
compared a b = answer (compare a b) refl
  where
    answer : (o : Ordering) → compare a b ≡ o → Compared a b
    answer Ordering.lt e = less e (compare-lt a b e)
    answer Ordering.eq e = same e (compare-eq a b e)
    answer Ordering.gt e = more e (compare-gt a b e)

-- The first characters decide, unless they are the same.
module _ (c d : Char) (s t : String) where
  heads_less : code c < code d → str_lt (String.◌∷◌ c s) (String.◌∷◌ d t) ≡ true
  heads_less h = elim (compared (code c) (code d)) [
    | less e l ↦ rw (e, str_lt) refl
    | same e l ↦ absurd (omega arith)
    | more e l ↦ absurd (omega arith)
  ]

  heads_same : code c ≡ code d → str_lt (String.◌∷◌ c s) (String.◌∷◌ d t) ≡ str_lt s t
  heads_same h = elim (compared (code c) (code d)) [
    | less e l ↦ absurd (omega arith)
    | same e l ↦ rw (e, str_lt) refl
    | more e l ↦ absurd (omega arith)
  ]

  heads_more : code d < code c → str_lt (String.◌∷◌ c s) (String.◌∷◌ d t) ≡ false
  heads_more h = elim (compared (code c) (code d)) [
    | less e l ↦ absurd (omega arith)
    | same e l ↦ absurd (omega arith)
    | more e l ↦ rw (e, str_lt) refl
  ]

false-true : {b : Bool} → b ≡ false → b ≡ true → ⊥
false-true e f = ground arith

pub str_lt_asym : (s t : String) → str_lt s t ≡ true → str_lt t s ≡ false
str_lt_asym String.[] String.[] h = refl
str_lt_asym String.[] (String.◌∷◌ d t) h = refl
str_lt_asym (String.◌∷◌ c s) String.[] h = absurd (ground arith)
str_lt_asym (String.◌∷◌ c s) (String.◌∷◌ d t) h = elim (compared (code c) (code d)) [
  | less e l ↦ heads_more d c t s l
  | same e l ↦ heads_same d c t s (sym l) ∙ str_lt_asym s t (sym (heads_same c d s t l) ∙ h)
  | more e l ↦ absurd (false-true (heads_more c d s t l) h)
]

pub str_lt_trans : (s t u : String) → str_lt s t ≡ true → str_lt t u ≡ true → str_lt s u ≡ true
str_lt_trans String.[] String.[] String.[] h k = h
str_lt_trans String.[] (String.◌∷◌ d t) String.[] h k = absurd (ground arith)
str_lt_trans String.[] t (String.◌∷◌ x u) h k = refl
str_lt_trans (String.◌∷◌ c s) String.[] u h k = absurd (ground arith)
str_lt_trans (String.◌∷◌ c s) (String.◌∷◌ d t) String.[] h k = absurd (ground arith)
str_lt_trans (String.◌∷◌ c s) (String.◌∷◌ d t) (String.◌∷◌ x u) h k =
    elim (compared (code c) (code d)) [
      | less e l ↦ elim (compared (code d) (code x)) [
        | less e' l' ↦ heads_less c x s u (omega arith)
        | same e' l' ↦ heads_less c x s u (omega arith)
        | more e' l' ↦ absurd (false-true (heads_more d x t u l') k)
      ]
      | same e l ↦ elim (compared (code d) (code x)) [
        | less e' l' ↦ heads_less c x s u (omega arith)
        | same e' l' ↦
            heads_same c x s u (l ∙ l')
            ∙ str_lt_trans s t u (sym (heads_same c d s t l) ∙ h) (sym (heads_same d x t u l') ∙ k)
        | more e' l' ↦ absurd (false-true (heads_more d x t u l') k)
      ]
      | more e l ↦ absurd (false-true (heads_more c d s t l) h)
    ]

pub str_lt_total : (s t : String) → str_lt s t ≡ false → str_lt t s ≡ false → s ≡ t
str_lt_total String.[] String.[] h k = refl
str_lt_total String.[] (String.◌∷◌ d t) h k = absurd (ground arith)
str_lt_total (String.◌∷◌ c s) String.[] h k = absurd (ground arith)
str_lt_total (String.◌∷◌ c s) (String.◌∷◌ d t) h k = elim (compared (code c) (code d)) [
  | less e l ↦ absurd (false-true h (heads_less c d s t l))
  | same e l ↦
      ap₂ String.◌∷◌ (Char-path c d l)
        (str_lt_total s t (sym (heads_same c d s t l) ∙ h) (sym (heads_same d c t s (sym l)) ∙ k))
  | more e l ↦ absurd (false-true k (heads_less d c t s l))
]
