-- ===== src/Client/Chart/Paint.antt =====
-- The line that a chart with an automatic range draws.
use hardware_panel.Base.{
  ℕ, zero, suc, ◌+◌, ◌-◌, ◌≤◌, ◌≡◌, refl, ap, ◌∙◌, true, List, [], ◌∷◌, some, arith, length,
  get_elem?, le→ltb, ap₂,
}
use hardware_panel.Client.Chart.{Arithmetic, LineChart, range, vertex, vertices, paint}
use hardware_panel.Client.Chart.Range.{
  IsOrdered, IsWithin, IsFitted, some-injective, range-IsWithin, range-IsFitted,
}

module _ (arithmetic : Arithmetic) (ordered : IsOrdered arithmetic) where
  open arithmetic use {
    V, sub, div, F, to_float, float_of, float_sub, float_mul, float_div, positive,
  }
  open ordered use {fraction}

  get_elem?-vertices :
      (step_x h : F) (r : V × V) (ds : List V) (j i : ℕ) (d : V)
      → get_elem? ds i ≡ some d
      → get_elem? (vertices arithmetic step_x h r j ds) i
        ≡ some (vertex arithmetic step_x h r (j + i) d)
  unfolding vertices
  get_elem?-vertices step_x h r [] j i d e = absurd (ground arith)
  get_elem?-vertices step_x h r (x ∷ ds) j zero d e =
      ap₂ (λ k y. some (vertex arithmetic step_x h r k y)) (let s : j ≡ j + 0 = omega arith in s)
        (some-injective x d e)
  get_elem?-vertices step_x h r (x ∷ ds) j (suc i) d e =
      get_elem?-vertices step_x h r ds (j + 1) i d e
      ∙ ap (λ k. some (vertex arithmetic step_x h r k d))
          (let s : j + 1 + i ≡ j + suc i = omega arith in s)

  length-vertices :
      (step_x h : F) (r : V × V) (ds : List V) (j : ℕ)
      → length (vertices arithmetic step_x h r j ds) ≡ length ds
  unfolding vertices
  length-vertices step_x h r [] j = refl
  length-vertices step_x h r (x ∷ ds) j = ap suc (length-vertices step_x h r ds (j + 1))

  -- Where a value of the range belongs: the `i`-th of the equal steps from the left, and from the top
  -- the part of the height that the range leaves above it.
  abbrev pub place : F → F → V × V → ℕ → V → F × F
  place step_x height (lo, hi) i d = (
    float_mul step_x (float_of i),
    float_mul height (float_sub (float_of 1) (to_float (div (sub d lo) (sub hi lo)))),
  )

  vertex-place :
      (step_x height : F) (r : V × V) (i : ℕ) (d : V)
      → IsWithin arithmetic ordered d r
      → vertex arithmetic step_x height r i d ≡ place step_x height r i d
  vertex-place step_x height (lo, hi) i d within =
      let (low, high) = fraction lo hi d within.0 within.1 in rw (low, high) refl

  -- A chart with an automatic range, at least two values and a positive size has the range from its
  -- least to its greatest value, wider by 1 on both sides if the two are nearly the same. It is drawn
  -- with one vertex for each value, and each value lies within the range and is drawn in its place, not cut off: its
  -- step times its index from the left, and the height times 1 - (d - lo) / (hi - lo) from the top. It
  -- holds for an order without NaN in which adding or taking 1 does not go the wrong way and
  -- (d - lo) / (hi - lo) is neither below 0 nor above 1 for a value from lo to hi.
  pub paint_covers :
      {C : Type 0} (c : LineChart arithmetic C) (w h : V)
      → c.auto_range ≡ true
      → 2 ≤ length c.values
      → positive w ≡ true
      → positive h ≡ true
      → let r = range arithmetic c in
        let step_x = float_div (to_float w) (float_of (length c.values - 1)) in
        IsFitted arithmetic ordered c.values r
        × (length (paint arithmetic w h c) ≡ length c.values)
        × ((i : ℕ) (d : V)
            → get_elem? c.values i ≡ some d
            → IsWithin arithmetic ordered d r
              × (get_elem? (paint arithmetic w h c) i ≡ some (place step_x (to_float h) r i d)))
  unfolding paint
  paint_covers c w h auto many pw ph =
      let r = range arithmetic c in
      let step_x = float_div (to_float w) (float_of (length c.values - 1)) in
      rw (le→ltb (length c.values) 2 many, pw, ph)
        (
          fitted c.values refl,
          length-vertices step_x (to_float h) r c.values 0,
          λ i d e.
              let within = range-IsWithin arithmetic ordered c i d auto e in
              (
                within,
                get_elem?-vertices step_x (to_float h) r c.values 0 i d e
                    ∙ (ap (λ k. some (vertex arithmetic step_x (to_float h) r k d))
                          (let s : 0 + i ≡ i = omega arith in s)
                        ∙ ap some (vertex-place step_x (to_float h) r i d within)),
              ),
        )
    where
      fitted :
          (vs : List V) → c.values ≡ vs → IsFitted arithmetic ordered c.values (range arithmetic c)
      fitted [] e = absurd (ground (arith, e))
      fitted (v ∷ vs) e = range-IsFitted arithmetic ordered c v vs auto e
