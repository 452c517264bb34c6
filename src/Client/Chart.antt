-- ===== src/Client/Chart.antt =====
-- apps/hwpanel-client/backend/line_chart.cpp: the chart of one series. The arithmetic on `double` and
-- `float` is a record of operations; the node, its material and its flags are Qt's.
pub mod Extremes
pub mod Paint
pub mod Range
mod Tests
use hardware_panel.Base.{
  ℕ, suc, ◌+◌, ◌-◌, Bool, true, false, not, ◌&&◌, ◌||◌, List, [], ◌∷◌, Option, none, some, ltb,
  length, if◌then◌else◌,
}

-- `V` is double and `F` is float; `lt` is `<` on both sides, `near` is qFuzzyCompare.
pub record Arithmetic : Type 1 where
  pub V : Type 0
  pub lt : V → V → Bool
  pub near : V → V → Bool
  pub one : V
  pub add : V → V → V
  pub sub : V → V → V
  pub div : V → V → V
  pub positive : V → Bool
  pub F : Type 0
  pub to_float : V → F
  pub float_of : ℕ → F
  pub float_lt : F → F → Bool
  pub float_sub : F → F → F
  pub float_mul : F → F → F
  pub float_div : F → F → F

-- The signals; `update()` is a value too.
pub data ChartSignal : Type 0 where
  values_changed line_color_changed range_changed redraw : ChartSignal

abbrev same_flag : Bool → Bool → Bool
same_flag true b = b
same_flag false b = not b

module _ (arithmetic : Arithmetic) where
  open arithmetic use {
    V, lt, near, one, add, sub, div, positive, F, to_float, float_of, float_lt, float_sub,
    float_mul, float_div,
  }

  pub record LineChart (C : Type 0) : Type 0 where
    pub values : List V
    pub line_color : C
    pub min_value : V
    pub max_value : V
    pub auto_range : Bool

  module _ {C : Type 0} where
    -- The setters; `same` is the comparison of the code, of the old with the new one.
    unfoldable pub set_values :
        (List V → List V → Bool) → List V → LineChart C → LineChart C × List ChartSignal
    set_values same values c =
        if same c.values values
        then (c, [])
        else (record c { values = values }, values_changed ∷ redraw ∷ [])

    unfoldable pub set_line_color :
        (C → C → Bool) → C → LineChart C → LineChart C × List ChartSignal
    set_line_color same color c =
        if same c.line_color color
        then (c, [])
        else (record c { line_color = color }, line_color_changed ∷ redraw ∷ [])

    unfoldable pub set_min_value : V → LineChart C → LineChart C × List ChartSignal
    set_min_value value c =
        if near c.min_value value
        then (c, [])
        else (record c { min_value = value }, range_changed ∷ redraw ∷ [])

    unfoldable pub set_max_value : V → LineChart C → LineChart C × List ChartSignal
    set_max_value value c =
        if near c.max_value value
        then (c, [])
        else (record c { max_value = value }, range_changed ∷ redraw ∷ [])

    unfoldable pub set_auto_range : Bool → LineChart C → LineChart C × List ChartSignal
    set_auto_range enabled c =
        if same_flag c.auto_range enabled
        then (c, [])
        else (record c { auto_range = enabled }, range_changed ∷ redraw ∷ [])

  -- The loop over the values: `std::min` and `std::max`.
  unfoldable pub bounds : List V → V × V → V × V
  bounds [] r = r
  bounds (d ∷ ds) (lo, hi) = bounds ds (if lt d lo then d else lo, if lt hi d then d else hi)

  -- The range of an automatic chart whose first value is `first`.
  unfoldable pub auto_bounds : V → List V → V × V
  unfolding bounds
  auto_bounds first values =
      let (lo, hi) = bounds values (first, first) in
      if near lo hi then (sub lo one, add hi one) else (lo, hi)

  abbrev pub widened : V × V → V × V
  widened (lo, hi) = if lt lo hi then (lo, hi) else (lo, add lo one)

  -- `lo` and `hi` before they are widened; a chart that is painted has values.
  unfoldable pub initial : Bool → V → V → List V → V × V
  unfolding auto_bounds
  initial false min_value max_value values = (min_value, max_value)
  initial true min_value max_value [] = (min_value, max_value)
  initial true min_value max_value (first ∷ rest) = auto_bounds first (first ∷ rest)

  unfoldable pub range : {C : Type 0} → LineChart C → V × V
  unfolding initial
  range c = widened (initial c.auto_range c.min_value c.max_value c.values)

  -- `std::clamp(t, 0.0f, 1.0f)`.
  abbrev pub clamp_unit : F → F
  clamp_unit t =
      if float_lt t (float_of 0)
      then float_of 0
      else if float_lt (float_of 1) t
      then float_of 1
      else t

  -- One vertex, for the value `d` at index `i`.
  abbrev pub vertex : F → F → V × V → ℕ → V → F × F
  vertex step_x h (lo, hi) i d = (
    float_mul step_x (float_of i),
    float_mul h (float_sub (float_of 1) (clamp_unit (to_float (div (sub d lo) (sub hi lo))))),
  )

  unfoldable pub vertices : F → F → V × V → ℕ → List V → List (F × F)
  vertices step_x h r i [] = []
  vertices step_x h r i (d ∷ ds) = vertex step_x h r i d ∷ vertices step_x h r (i + 1) ds

  -- `updatePaintNode`: the line that is drawn in a width and a height.
  unfoldable pub paint : {C : Type 0} → V → V → LineChart C → List (F × F)
  unfolding range vertices
  paint w h c =
      let step_x = float_div (to_float w) (float_of (length c.values - 1)) in
      if ltb (length c.values) 2 || (not (positive w) || not (positive h))
      then []
      else vertices step_x (to_float h) (range c) 0 c.values
