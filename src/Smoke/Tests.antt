-- ===== src/Smoke/Tests.antt =====
-- A run of the tool over three seconds.
use hardware_panel.Base.{String, true, ◌≡◌, ◌↔◌, refl, List, [], ◌∷◌, none, some, if◌then◌else◌}
use hardware_panel.Base.Int.{ℤ, pos}
use hardware_panel.Smoke.{Options, options_of, deadline_exceeded, main}
use hardware_panel.Smoke.Verdict.{Passes, main_succeeds_iff}

abbrev three_seconds : List String
three_seconds = "--seconds" ∷ "5" ∷ "--status" ∷ []

abbrev stamps : List ℤ
stamps = pos 1000 ∷ pos 2000 ∷ pos 3001 ∷ []

exit_code : main none three_seconds true stamps deadline_exceeded ≡ 0
unfolding main
exit_code = refl

main_succeeds_iff_example : (main none three_seconds true stamps deadline_exceeded ≡ 0) ↔ (
    (o : Options) × (options_of none three_seconds ≡ some o)
    × ((if o.check_status then true else true) ≡ true)
    × Passes o stamps deadline_exceeded)
main_succeeds_iff_example = main_succeeds_iff none three_seconds true stamps deadline_exceeded
