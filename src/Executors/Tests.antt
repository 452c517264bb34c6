-- ===== src/Executors/Tests.antt =====
-- The brightness executor on two monitors, of which the first cannot be set, and the power plan
-- executor on a machine that takes every scheme.
use hardware_panel.Base.{
  ℕ, ◌≡◌, refl, [], ◌∷◌, some, none, String, true, false, ◌==◌, if◌then◌else◌,
}
use mathlib.Core.List.{flatten}
use hardware_panel.Base.Int.{pos, negsuc}
use hardware_panel.Executors.Power.{
  Guid, balanced_plan, high_performance_plan, power_saver_plan, hex, guid_to_string, PowerSchemes,
}
use hardware_panel.Executors.Brightness.{Monitors, atoi, signed, digits, apply, apply_lem}

-- The machine is the brightness of the second monitor; the handles are 0 and 1.
abbrev two_monitors : Monitors ℕ
two_monitors = record {
  Display = ℕ;
  Handle = ℕ;
  displays = λ w. 7 ∷ [];
  handles = λ d w. some (0 ∷ 1 ∷ []);
  get = λ h w. if h == 0 then none else some w;
  set = λ h v w. if h == 0 then (false, w) else (true, v);
}

reads_sign : atoi " -12x" ≡ negsuc 11
unfolding atoi signed digits
reads_sign = refl

reads_digits : atoi "040 %" ≡ pos 40
unfolding atoi signed digits
reads_digits = refl

abbrev some_text : ℕ → String
some_text n = "1"

apply_lem_example :
    ((apply two_monitors some_text "100" 70).0.ok ≡ true)
    × ((apply two_monitors some_text "100" 70).1 ≡ 100)
unfolding atoi signed digits flatten
apply_lem_example = apply_lem two_monitors some_text "100" 70

prints_guid : guid_to_string balanced_plan ≡ "381b4222-f694-41f0-9685-ff5bb260df2e"
unfolding guid_to_string hex
prints_guid = refl

-- The machine is the active scheme.
abbrev one_scheme : PowerSchemes Guid
one_scheme = record { active = λ g. some g; set_active = λ g w. (0, g) }

prints_high : guid_to_string high_performance_plan ≡ "8c5e7fda-e8bf-4a96-9a85-a6e23a8c635c"
unfolding guid_to_string hex
prints_high = refl

prints_saver : guid_to_string power_saver_plan ≡ "a1841308-3541-4fab-bc81-f71556f20b4a"
unfolding guid_to_string hex
prints_saver = refl
