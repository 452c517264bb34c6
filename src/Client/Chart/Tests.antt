-- ===== src/Client/Chart/Tests.antt =====
-- A chart of three values, over numbers of hundredths.
use hardware_panel.Base.{
  ℕ, zero, suc, ◌≤◌, ◌+◌, ◌-◌, ◌*◌, ◌/◌, ◌≡◌, refl, true, false, [], ◌∷◌, some, ltb, ◌==◌, length,
  get_elem?, arith,
}
use hardware_panel.Client.Chart.{
  Arithmetic, LineChart, range, initial, auto_bounds, bounds, vertices, paint,
}
use hardware_panel.Client.Chart.Range.{IsOrdered, IsWithin, IsFitted}
use hardware_panel.Client.Chart.Paint.{place, paint_covers}

abbrev hundredths : Arithmetic
hundredths = record {
  V = ℕ;
  lt = ltb;
  near = λ a b. a == b;
  one = 100;
  add = λ a b. a + b;
  sub = λ a b. a - b;
  div = λ a b. a * 100 / b;
  positive = λ a. ltb 0 a;
  F = ℕ;
  to_float = λ a. a;
  float_of = λ n. n * 100;
  float_lt = ltb;
  float_sub = λ a b. a - b;
  float_mul = λ a b. a * b / 100;
  float_div = λ a b. a * 100 / b;
}

quotient-le : (x y : ℕ) → x ≤ y → x * 100 / y ≤ 100
quotient-le x zero h = let e : x ≡ 0 = omega arith in rw e (omega arith)
quotient-le x (suc y) h = grind arith

fraction-hundredths :
    (lo hi d : ℕ)
    → ltb d lo ≡ false
    → ltb hi d ≡ false
    → (ltb ((d - lo) * 100 / (hi - lo)) (0 * 100) ≡ false)
      × (ltb (1 * 100) ((d - lo) * 100 / (hi - lo)) ≡ false)
fraction-hundredths lo hi d low high =
    let inside : d - lo ≤ hi - lo = ground arith in
    ground (arith, quotient-le (d - lo) (hi - lo) inside)

hundredths-IsOrdered : IsOrdered hundredths
hundredths-IsOrdered = record {
  lt_asym = λ a b h. ground arith;
  lt_cotrans = λ a b c h k. ground arith;
  lt_irrefl = λ a. ground arith;
  sub_one = λ a. ground arith;
  add_one = λ a. ground arith;
  fraction = λ lo hi d low high. fraction-hundredths lo hi d low high;
}

abbrev chart : LineChart hundredths ℕ
chart = record {
  values = 2000 ∷ 9000 ∷ 5000 ∷ [];
  line_color = 0;
  min_value = 0;
  max_value = 4000;
  auto_range = true;
}

paint_covers_example :
    IsFitted hundredths hundredths-IsOrdered chart.values (range hundredths chart)
    × (length (paint hundredths 20000 10000 chart) ≡ 3)
    × ((i d : ℕ)
        → get_elem? chart.values i ≡ some d
        → IsWithin hundredths hundredths-IsOrdered d (range hundredths chart)
          × (get_elem? (paint hundredths 20000 10000 chart) i
              ≡ some
                  (place hundredths hundredths-IsOrdered 10000 10000 (range hundredths chart) i d)))
paint_covers_example =
    paint_covers hundredths hundredths-IsOrdered chart 20000 10000 refl (omega arith) refl refl

unit_steps : paint hundredths 20000 10000 chart ≡ (0, 10000) ∷ (10000, 0) ∷ (20000, 5800) ∷ []
unfolding paint range initial auto_bounds bounds vertices
unit_steps = refl
