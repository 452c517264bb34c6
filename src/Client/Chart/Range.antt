-- ===== src/Client/Chart/Range.antt =====
-- What a chart with an automatic range shows.
use hardware_panel.Base.{
  ℕ, zero, suc, ◌≡◌, refl, inl, inr, Bool, true, false, List, [], ◌∷◌, some, if◌then◌else◌, arith,
  Bool-cases, get_elem?, subst,
}
use hardware_panel.Client.Chart.Extremes.{bounds-low_found, bounds-high_found}
use hardware_panel.Client.Chart.{
  Arithmetic, LineChart, bounds, auto_bounds, widened, initial, range,
}

module _ (arithmetic : Arithmetic) where
  open arithmetic use {V, lt, one, add, sub, div, to_float, float_of, float_lt}

  -- `<` orders the values that are no NaN, adding or taking 1 does not go the wrong way, and the
  -- place of a value within a range is a fraction that is neither below 0 nor above 1.
  pub record IsOrdered : Type 0 where
    pub lt_asym : (a b : V) → lt a b ≡ true → lt b a ≡ false
    pub lt_cotrans : (a b c : V) → lt b a ≡ false → lt c b ≡ false → lt c a ≡ false
    pub lt_irrefl : (a : V) → lt a a ≡ false
    pub sub_one : (a : V) → lt a (sub a one) ≡ false
    pub add_one : (a : V) → lt (add a one) a ≡ false
    pub fraction :
        (lo hi d : V)
        → lt d lo ≡ false
        → lt hi d ≡ false
        → let t = to_float (div (sub d lo) (sub hi lo)) in
          (float_lt t (float_of 0) ≡ false) × (float_lt (float_of 1) t ≡ false)

pub some-injective : {A : Type 0} (a b : A) → some a ≡ some b → a ≡ b
some-injective a b e = ground arith

module _ (arithmetic : Arithmetic) (ordered : IsOrdered arithmetic) where
  open arithmetic use {
    V, lt, near, one, add, sub, div, F, to_float, float_of, float_sub, float_mul, float_div,
    positive,
  }
  open ordered use {lt_asym, lt_cotrans, lt_irrefl, sub_one, add_one, fraction}

  -- `a <= b`, as the negation of `b < a`.
  abbrev le : V → V → Type 0
  le a b = lt b a ≡ false

  le_trans : (a b c : V) → le a b → le b c → le a c
  le_trans a b c x y = lt_cotrans a b c x y

  -- The value lies in the range.
  abbrev pub IsWithin : V → V × V → Type 0
  IsWithin d r = le r.0 d × le d r.1

  -- The second range contains the first.
  abbrev IsWider : V × V → V × V → Type 0
  IsWider r r' = le r'.0 r.0 × le r.1 r'.1

  IsWithin-wider : (d : V) (r r' : V × V) → IsWider r r' → IsWithin d r → IsWithin d r'
  IsWithin-wider d r r' (a, b) (x, y) = (le_trans r'.0 r.0 d a x, le_trans d r.1 r'.1 y b)

  IsWider-trans : (r r' r'' : V × V) → IsWider r r' → IsWider r' r'' → IsWider r r''
  IsWider-trans r r' r'' (a, b) (x, y) = (le_trans r''.0 r'.0 r.0 x a, le_trans r.1 r'.1 r''.1 b y)

  lower : (d lo : V) → le (if lt d lo then d else lo) lo × le (if lt d lo then d else lo) d
  lower d lo = elim (Bool-cases (lt d lo)) [
    | inl e ↦ rw e (lt_asym d lo e, lt_irrefl d)
    | inr e ↦ rw e (lt_irrefl lo, e)
  ]

  upper : (d hi : V) → le hi (if lt hi d then d else hi) × le d (if lt hi d then d else hi)
  upper d hi = elim (Bool-cases (lt hi d)) [
    | inl e ↦ rw e (lt_asym hi d e, lt_irrefl d)
    | inr e ↦ rw e (lt_irrefl hi, e)
  ]

  bounds-IsWider : (ds : List V) (r : V × V) → IsWider r (bounds arithmetic ds r)
  unfolding bounds
  bounds-IsWider [] (lo, hi) = (lt_irrefl lo, lt_irrefl hi)
  bounds-IsWider (d ∷ ds) (lo, hi) =
      IsWider-trans (lo, hi) (if lt d lo then d else lo, if lt hi d then d else hi) _
        ((lower d lo).0, (upper d hi).0)
        (bounds-IsWider ds (if lt d lo then d else lo, if lt hi d then d else hi))

  bounds-IsWithin :
      (ds : List V) (r : V × V) (i : ℕ) (d : V)
      → get_elem? ds i ≡ some d
      → IsWithin d (bounds arithmetic ds r)
  unfolding bounds
  bounds-IsWithin [] r i d e = absurd (ground arith)
  bounds-IsWithin (x ∷ ds) (lo, hi) zero d e =
      let same : x ≡ d = some-injective x d e in
      subst (λ k. IsWithin k (bounds arithmetic (x ∷ ds) (lo, hi))) same
        (IsWithin-wider x (if lt x lo then x else lo, if lt hi x then x else hi) _
          (bounds-IsWider ds (if lt x lo then x else lo, if lt hi x then x else hi))
          ((lower x lo).1, (upper x hi).1))
  bounds-IsWithin (x ∷ ds) (lo, hi) (suc i) d e =
      bounds-IsWithin ds (if lt x lo then x else lo, if lt hi x then x else hi) i d e

  auto_bounds-IsWider :
      (first : V) (ds : List V)
      → IsWider (bounds arithmetic ds (first, first)) (auto_bounds arithmetic first ds)
  unfolding auto_bounds
  auto_bounds-IsWider first ds =
      let r = bounds arithmetic ds (first, first) in
      elim (Bool-cases (near r.0 r.1)) [
        | inl e ↦ rw e (sub_one r.0, add_one r.1)
        | inr e ↦ rw e (lt_irrefl r.0, lt_irrefl r.1)
      ]

  widened-IsWider : (r : V × V) → IsWider r (widened arithmetic r)
  widened-IsWider (lo, hi) = elim (Bool-cases (lt lo hi)) [
    | inl e ↦ rw e (lt_irrefl lo, lt_irrefl hi)
    | inr e ↦ rw e (lt_irrefl lo, le_trans hi lo (add lo one) e (add_one lo))
  ]

  initial-IsWithin :
      (lo hi : V) (vs : List V) (i : ℕ) (d : V)
      → get_elem? vs i ≡ some d
      → IsWithin d (widened arithmetic (initial arithmetic true lo hi vs))
  unfolding initial
  initial-IsWithin lo hi [] i d e = absurd (ground arith)
  initial-IsWithin lo hi (x ∷ vs) i d e =
      let r = auto_bounds arithmetic x (x ∷ vs) in
      IsWithin-wider d r (widened arithmetic r) (widened-IsWider r) (
        IsWithin-wider d (bounds arithmetic (x ∷ vs) (x, x)) r (auto_bounds-IsWider x (x ∷ vs))
          (bounds-IsWithin (x ∷ vs) (x, x) i d e))

  pub range-IsWithin :
      {C : Type 0} (c : LineChart arithmetic C) (i : ℕ) (d : V)
      → c.auto_range ≡ true
      → get_elem? c.values i ≡ some d
      → IsWithin d (range arithmetic c)
  unfolding range
  range-IsWithin c i d auto e = rw auto (initial-IsWithin c.min_value c.max_value c.values i d e)

  -- The range that shows the values from `lo` to `hi`: wider by 1 on both sides if the two are nearly
  -- the same, and not empty.
  abbrev pub shown : V → V → V × V
  shown lo hi =
      let low = if near lo hi then sub lo one else lo in
      let high = if near lo hi then add hi one else hi in
      (low, if lt low high then high else add low one)

  -- The range is the one that shows the values from the least to the greatest.
  abbrev pub IsFitted : List V → V × V → Type 0
  IsFitted vs r =
      (i : ℕ) × (j : ℕ) × (lo : V) × (hi : V) × (get_elem? vs i ≡ some lo)
      × (get_elem? vs j ≡ some hi)
      × ((k : ℕ) (d : V) → get_elem? vs k ≡ some d → IsWithin d (lo, hi))
      × (r ≡ shown lo hi)

  widened-if :
      (b : Bool) (lo hi x : V)
      → ◌≡◌ {A = V × V} (if b then (lo, hi) else (lo, x)) (lo, if b then hi else x)
  widened-if true lo hi x = refl
  widened-if false lo hi x = refl

  initial-shown :
      (lo hi : V) (v : V) (vs : List V)
      → widened arithmetic (initial arithmetic true lo hi (v ∷ vs))
        ≡ shown (bounds arithmetic (v ∷ vs) (v, v)).0 (bounds arithmetic (v ∷ vs) (v, v)).1
  unfolding initial auto_bounds
  initial-shown lo hi v vs = ends (bounds arithmetic (v ∷ vs) (v, v))
    where
      ends :
          (r : V × V)
          → widened arithmetic (if near r.0 r.1 then (sub r.0 one, add r.1 one) else (r.0, r.1))
            ≡ shown r.0 r.1
      ends (low, high) = elim (Bool-cases (near low high)) [
        | inl e ↦ rw e (
            widened-if (lt (sub low one) (add high one)) (sub low one) (add high one)
              (add (sub low one) one))
        | inr e ↦ rw e (widened-if (lt low high) low high (add low one))
      ]

  pub range-IsFitted :
      {C : Type 0} (c : LineChart arithmetic C) (v : V) (vs : List V)
      → c.auto_range ≡ true
      → c.values ≡ v ∷ vs
      → IsFitted c.values (range arithmetic c)
  unfolding range
  range-IsFitted c v vs auto e =
      let (i, low) = bounds-low_found arithmetic v vs in
      let (j, high) = bounds-high_found arithmetic v vs in
      rw (e, auto)
        (
          i,
          j,
          _,
          _,
          low,
          high,
          λ k d at. bounds-IsWithin (v ∷ vs) (v, v) k d at,
          initial-shown c.min_value c.max_value v vs,
        )
