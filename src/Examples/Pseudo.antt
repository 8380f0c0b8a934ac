-- ===== src/Examples/Pseudo.antt =====
-- The simulated x-axis.
use mpmt_test_stand.Prelude.{ℕ, zero, suc, ◌+◌, ◌*◌, ◌≡◌, refl, false, List, [], ◌∷◌, arith}
use mpmt_test_stand.Gantry.State.{AxisMech}
use mpmt_test_stand.Gantry.Axis.{to_counts}
use mpmt_test_stand.Pseudo.{setup_pseudo_axis, reset_pseudo_axis}
use mpmt_test_stand.Pseudo.Switches.{Change, changes, IsGantry, changes_after_setup}
use mpmt_test_stand.Pseudo.Ratio.{toggles, step_levels, ratio_lem}

-- Steps towards home, 2 milliseconds apart.
abbrev steps_home : ℕ → ℕ → List Change
steps_home zero now = []
steps_home (suc n) now =
    record { time = now; level = 1; direction = false }
    ∷ record { time = now + 1000; level = 0; direction = false }
    ∷ steps_home n (now + 2000)

changes_after_setup_example :
    IsGantry
      (changes
        (steps_home 8 1000)
        (record { axis = setup_pseudo_axis 2 6 4 8 9; last_interrupt_time = 0 })).axis
unfolding setup_pseudo_axis reset_pseudo_axis
changes_after_setup_example =
    changes_after_setup 2 6 4 8 9 0 (steps_home 8 1000) (refl, refl, refl, refl)

abbrev mech : AxisMech
mech = record { counts_per_rev = 500; steps_per_rev = 800 }

ratio_lem_example :
    (toggles (step_levels (8 * 2)) (setup_pseudo_axis 2 6 4 8 9)).0 ≡ to_counts mech (8 * 2)
ratio_lem_example = ratio_lem 2 2 6 4 8 9 mech refl refl (omega arith)
