-- ===== src/Client/Chart/Extremes.antt =====
-- The least and the greatest value of a chart are values of it.
use hardware_panel.Base.{
  ℕ, suc, ◌≡◌, refl, ap, sym, ◌⊎◌, inl, inr, List, [], ◌∷◌, some, Bool, true, false, if◌then◌else◌,
  get_elem?,
}
use hardware_panel.Client.Chart.{Arithmetic, bounds}

module _ (arithmetic : Arithmetic) where
  open arithmetic use {V, lt}

  -- The value is `v`, or one of the list.
  abbrev pub IsOneOf : V → V → List V → Type 0
  IsOneOf v x ds = (x ≡ v) ⊎ ((k : ℕ) × (get_elem? ds k ≡ some x))

  -- The kept value, whichever it was, came from before or from the list.
  from_step :
      (b : Bool) (v d x : V) (ds : List V)
      → IsOneOf (if b then d else v) x ds
      → IsOneOf v x (d ∷ ds)
  from_step true v d x ds (inl e) = inr (0, ap some (sym e))
  from_step false v d x ds (inl e) = inl e
  from_step b v d x ds (inr (k, e)) = inr (suc k, e)

  bounds-low : (ds : List V) (lo hi : V) → IsOneOf lo (bounds arithmetic ds (lo, hi)).0 ds
  unfolding bounds
  bounds-low [] lo hi = inl refl
  bounds-low (d ∷ ds) lo hi =
      from_step (lt d lo) lo d _ ds
        (bounds-low ds (if lt d lo then d else lo) (if lt hi d then d else hi))

  bounds-high : (ds : List V) (lo hi : V) → IsOneOf hi (bounds arithmetic ds (lo, hi)).1 ds
  unfolding bounds
  bounds-high [] lo hi = inl refl
  bounds-high (d ∷ ds) lo hi =
      from_step (lt hi d) hi d _ ds
        (bounds-high ds (if lt d lo then d else lo) (if lt hi d then d else hi))

  found : (v x : V) (ds : List V) → IsOneOf v x (v ∷ ds) → (k : ℕ) × (get_elem? (v ∷ ds) k ≡ some x)
  found v x ds (inl e) = (0, ap some (sym e))
  found v x ds (inr h) = h

  pub bounds-low_found :
      (v : V) (ds : List V)
      → (k : ℕ) × (get_elem? (v ∷ ds) k ≡ some (bounds arithmetic (v ∷ ds) (v, v)).0)
  bounds-low_found v ds = found v _ ds (bounds-low (v ∷ ds) v v)

  pub bounds-high_found :
      (v : V) (ds : List V)
      → (k : ℕ) × (get_elem? (v ∷ ds) k ≡ some (bounds arithmetic (v ∷ ds) (v, v)).1)
  bounds-high_found v ds = found v _ ds (bounds-high (v ∷ ds) v v)
