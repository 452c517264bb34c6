-- ===== src/Executors/Brightness.antt =====
-- plugins/executors/brightness_executor.cpp: the brightness of the monitors. The monitors and what
-- the system's calls answer for them are a record of functions of the machine's state;
-- `std::to_string` is an argument.
use Prim.Native.Char.{Char, code}
use hardware_panel.Base.{
  ℕ, zero, suc, ◌+◌, ◌-◌, ◌*◌, ◌≡◌, refl, ap, sym, ◌∙◌, List, [], ◌∷◌, ◌++◌, Option, none, some,
  String, Bool, true, false, ltb, leb, ◌==◌, ◌&&◌, ◌||◌, ◌&◌, if◌then◌else◌, arith, not, map, ◌++◌,
  inl, inr, Bool-cases, Option-cases,
}
use mathlib.Core.List.{flatten}
use hardware_panel.Base.Int.{ℤ, pos, negsuc, int_lt}
use hardware_panel.Executors.{ApplyResult, Executor}

-- `displays` is what EnumDisplayMonitors walks through, `handles` the answer of
-- GetNumberOfPhysicalMonitorsFromHMONITOR and GetPhysicalMonitorsFromHMONITOR for one of them (`none`
-- if one of the two fails), `get` the current value that GetMonitorBrightness gives, and `set`
-- SetMonitorBrightness.
pub record Monitors (W : Type 0) : Type 1 where
  pub Display : Type 0
  pub Handle : Type 0
  pub displays : W → List Display
  pub handles : Display → W → Option (List Handle)
  pub get : Handle → W → Option ℕ
  pub set : Handle → ℕ → W → Bool × W

-- `std::isspace` and `std::isdigit` in the C locale.
abbrev pub is_space : Char → Bool
is_space c = code c == 32 || (leb 9 (code c) && leb (code c) 13)

abbrev pub is_digit : Char → Bool
is_digit c = leb 48 (code c) && leb (code c) 57

unfoldable pub digits : ℕ → String → ℕ
digits acc String.[] = acc
digits acc (String.◌∷◌ c s) =
    let rest = digits (acc * 10 + (code c - 48)) s in if is_digit c then rest else acc

-- The number, 0 for a negative one.
abbrev pub pos_part : ℤ → ℕ
pos_part (pos n) = n
pos_part (negsuc n) = 0

abbrev pub negated : ℕ → ℤ
negated zero = pos 0
negated (suc n) = negsuc n

-- After the spaces: a sign and digits.
unfoldable pub signed : String → ℤ
unfolding digits
signed String.[] = pos 0
signed (String.◌∷◌ c s) =
    if code c == 45
    then negated (digits 0 s)
    else if code c == 43
    then pos (digits 0 s)
    else pos (digits 0 (String.◌∷◌ c s))

-- `std::atoi`; a value that is out of the range of `int` keeps its size.
unfoldable pub atoi : String → ℤ
unfolding signed
atoi String.[] = pos 0
atoi (String.◌∷◌ c s) = let rest = atoi s in if is_space c then rest else signed (String.◌∷◌ c s)

-- The value, unless it is below 0 or above 100.
unfoldable pub in_range : ℤ → Option ℕ
in_range (pos n) = if ltb 100 n then none else some n
in_range (negsuc n) = none

atoi-junk :
    (c : Char) (s : String)
    → is_space c ≡ false
    → (code c == 45 || code c == 43) ≡ false
    → is_digit c ≡ false
    → atoi (String.◌∷◌ c s) ≡ pos 0
unfolding atoi signed digits
atoi-junk c s space sign digit = ground (arith, space, sign, digit)

ltb-zero : (n : ℕ) → ltb n 0 ≡ false
ltb-zero n = ground arith

module _ {W : Type 0} (system : Monitors W) where
  open system use {Display, Handle, displays, handles, get, set}

  -- `EnumMonitorCallback` for each display.
  unfoldable pub enumerate_displays : List Display → W → List Handle
  enumerate_displays [] w = []
  enumerate_displays (d ∷ ds) w = elim (handles d w) [
    | none ↦ enumerate_displays ds w
    | some hs ↦ hs ++ enumerate_displays ds w
  ]

  unfoldable pub enumerate : W → List Handle
  unfolding enumerate_displays
  enumerate w = enumerate_displays (displays w) w

  -- The first handle whose brightness can be read.
  unfoldable pub first_value : List Handle → W → Option ℕ
  first_value [] w = none
  first_value (h ∷ hs) w = elim (get h w) [ none ↦ first_value hs w | some v ↦ some v ]

  unfoldable pub available : W → Bool
  unfolding enumerate first_value
  available w = elim (first_value (enumerate w) w) [ none ↦ false | some v ↦ true ]

  unfoldable pub current_value : (ℕ → String) → W → String
  unfolding enumerate first_value
  current_value to_string w = elim (first_value (enumerate w) w) [
    | none ↦ ""
    | some v ↦ to_string v
  ]

  -- The loop of `Apply`: how many monitors accepted.
  unfoldable pub set_all : List Handle → ℕ → W → ℕ × W
  set_all [] value w = (0, w)
  set_all (h ∷ hs) value w =
      let (ok, w') = set h value w in
      let (applied, w'') = set_all hs value w' in (if ok then suc applied else applied, w'')

  unfoldable pub apply : (ℕ → String) → String → W → ApplyResult × W
  unfolding atoi in_range enumerate set_all
  apply to_string desired w = elim (in_range (atoi desired)) [
    | none ↦ (record { ok = false; message = "brightness out of range: " & desired }, w)
    | some value ↦
        let (applied, w') = set_all (enumerate w) value w in
        (
          if applied == 0
              then record { ok = false; message = "no monitor accepted DDC/CI brightness" }
              else record {
                ok = true;
                message = "brightness -> " & desired & " on " & to_string applied & " monitor(s)";
              },
          w',
        )
  ]

  unfoldable pub brightness_executor : (ℕ → String) → Executor W
  brightness_executor to_string = record {
    key = "display.brightness";
    available = available;
    current_value = current_value to_string;
    apply = apply to_string;
  }

  -- Some monitor accepts the value, each asked in the state that the one before it left.
  abbrev pub any_accepts : List Handle → ℕ → W → Bool
  any_accepts [] value w = false
  any_accepts (h ∷ hs) value w = (set h value w).0 || any_accepts hs value (set h value w).1

  set_all-any_accepts :
      (hs : List Handle) (value : ℕ) (w : W)
      → ((set_all hs value w).0 == 0) ≡ (if any_accepts hs value w then false else true)
  unfolding set_all
  set_all-any_accepts [] value w = refl
  set_all-any_accepts (h ∷ hs) value w =
      ground (arith, set_all-any_accepts hs value (set h value w).1)

  apply-in_range :
      (to_string : ℕ → String) (desired : String) (w : W)
      → ((apply to_string desired w).0.ok ≡ elim (in_range (atoi desired)) [
        | none ↦ false
        | some value ↦ any_accepts (enumerate w) value w
      ])
        × ((apply to_string desired w).1 ≡ elim (in_range (atoi desired)) [
          | none ↦ w
          | some value ↦ (set_all (enumerate w) value w).1
        ])
  unfolding apply
  apply-in_range to_string desired w = split (in_range (atoi desired)) refl
    where
      split :
          (v : Option ℕ)
          → in_range (atoi desired) ≡ v
          → ((apply to_string desired w).0.ok
              ≡ elim v [ none ↦ false | some value ↦ any_accepts (enumerate w) value w ])
            × ((apply to_string desired w).1
                ≡ elim v [ none ↦ w | some value ↦ (set_all (enumerate w) value w).1 ])
      split none e = rw (e, apply) (refl, refl)
      split (some value) e =
          rw (e, apply) (ground (arith, set_all-any_accepts (enumerate w) value w), refl)

  -- The handles of all displays, in order; a display whose monitors are not given has none.
  abbrev pub all_handles : W → List Handle
  all_handles w = flatten (map (λ d. elim (handles d w) [ none ↦ [] | some hs ↦ hs ]) (displays w))

  -- The machine after the value was set on each handle in turn.
  abbrev pub set_on_each : List Handle → ℕ → W → W
  set_on_each [] value w = w
  set_on_each (h ∷ hs) value w = set_on_each hs value (set h value w).1

  enumerate_displays-flatten :
      (ds : List Display) (w : W)
      → enumerate_displays ds w
        ≡ flatten (map (λ d. elim (handles d w) [ none ↦ [] | some hs ↦ hs ]) ds)
  unfolding enumerate_displays flatten
  enumerate_displays-flatten [] w = refl
  enumerate_displays-flatten (d ∷ ds) w = elim (Option-cases (handles d w)) [
    | inl e ↦ rw (e, enumerate_displays) (enumerate_displays-flatten ds w)
    | inr (hs, e) ↦ rw (e, enumerate_displays) (ap (λ l. hs ++ l) (enumerate_displays-flatten ds w))
  ]

  enumerate-all_handles : (w : W) → enumerate w ≡ all_handles w
  unfolding enumerate
  enumerate-all_handles w = enumerate_displays-flatten (displays w) w

  set_all-set_on_each :
      (hs : List Handle) (value : ℕ) (w : W) → (set_all hs value w).1 ≡ set_on_each hs value w
  unfolding set_all
  set_all-set_on_each [] value w = refl
  set_all-set_on_each (h ∷ hs) value w = set_all-set_on_each hs value (set h value w).1

  -- With `v` the number that `atoi` reads: if 0 <= v <= 100, `Apply` sets `v` on every monitor of
  -- every display in turn, whatever the others answer, and succeeds exactly if one of them accepts;
  -- otherwise it fails and touches no monitor.
  pub apply_lem :
      (to_string : ℕ → String) (desired : String) (w : W)
      → let v = atoi desired in
        let allowed = not (int_lt v (pos 0)) && not (int_lt (pos 100) v) in
        ((apply to_string desired w).0.ok ≡ (allowed && any_accepts (all_handles w) (pos_part v) w))
        × ((apply to_string desired w).1
            ≡ (if allowed then set_on_each (all_handles w) (pos_part v) w else w))
  unfolding in_range
  apply_lem to_string desired w = split (atoi desired) refl
    where
      split :
          (v : ℤ)
          → atoi desired ≡ v
          → let allowed = not (int_lt v (pos 0)) && not (int_lt (pos 100) v) in
            ((apply to_string desired w).0.ok
              ≡ (allowed && any_accepts (all_handles w) (pos_part v) w))
            × ((apply to_string desired w).1
                ≡ (if allowed then set_on_each (all_handles w) (pos_part v) w else w))
      split (negsuc n) e =
          let (ok, machine) = apply-in_range to_string desired w in
          (ok ∙ rw e refl, machine ∙ rw e refl)
      split (pos n) e =
          let (ok, machine) = apply-in_range to_string desired w in
          elim (Bool-cases (ltb 100 n)) [
            | inl above ↦ (
              ok ∙ rw (e, in_range, above, ltb-zero n) refl,
              machine ∙ rw (e, in_range, above, ltb-zero n) refl,
            )
            | inr within ↦ (
              ok ∙ rw (e, in_range, within, ltb-zero n, enumerate-all_handles w) refl,
              machine
                  ∙ rw (e, in_range, within, ltb-zero n, enumerate-all_handles w)
                      (set_all-set_on_each (all_handles w) n w),
            )
          ]

  apply-machine :
      (to_string : ℕ → String) (desired : String) (value : ℕ) (w : W)
      → in_range (atoi desired) ≡ some value
      → (apply to_string desired w).1 ≡ (set_all (enumerate w) value w).1
  unfolding apply
  apply-machine to_string desired value w e = rw (e, apply) refl

  -- A text that begins with neither a space, a sign nor a digit is applied like "0": the monitors get
  -- the brightness 0, and the call succeeds exactly if that of "0" does.
  apply_junk :
      (to_string : ℕ → String) (c : Char) (s : String) (w : W)
      → is_space c ≡ false
      → (code c == 45 || code c == 43) ≡ false
      → is_digit c ≡ false
      → ((apply to_string (String.◌∷◌ c s) w).1 ≡ (apply to_string "0" w).1)
        × ((apply to_string (String.◌∷◌ c s) w).0.ok ≡ (apply to_string "0" w).0.ok)
  unfolding atoi signed digits in_range
  apply_junk to_string c s w space sign digit =
      let e = atoi-junk c s space sign digit in
      (
        apply-machine to_string (String.◌∷◌ c s) 0 w (ap in_range e)
            ∙ sym (apply-machine to_string "0" 0 w refl),
        (apply-in_range to_string (String.◌∷◌ c s) w).0
            ∙ (ap
                  (λ z. elim (in_range z) [
                    | none ↦ false
                    | some value ↦ any_accepts (enumerate w) value w
                  ])
                  e
                ∙ sym (apply-in_range to_string "0" w).0),
      )
