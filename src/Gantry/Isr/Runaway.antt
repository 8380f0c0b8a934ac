-- ===== src/Gantry/Isr/Runaway.antt =====
-- A motion in a direction that is neither positive nor negative: REACHED_TARGET holds of no position.
use mpmt_test_stand.Prelude.{ℕ, ◌≡◌, Bool, true, false, List, [], ◌∷◌, arith}
use mpmt_test_stand.Shared.{axis_dir_other, axis_ok}
use mpmt_test_stand.Gantry.State.{AxisMotionSpec, Axis}
use mpmt_test_stand.Gantry.Axis.{start_axis}
use mpmt_test_stand.Gantry.Isr.{
  Interrupt, encoder, step, accel, ls_home, ls_far, interrupt, interrupts,
}

-- The interrupts are all pulses and timers: no limit switch.
unfoldable pub no_switch : List Interrupt → Bool
no_switch [] = true
no_switch (ls_home _ ∷ is) = false
no_switch (ls_far _ ∷ is) = false
no_switch (_ ∷ is) = no_switch is

-- A moving axis without direction, of which `n` is the position.
Runs : ℕ → ℕ → Axis → Type 0
Runs d n a =
    (a.state.moving ≡ true) × (a.state.dir ≡ axis_dir_other d) × (a.state.encoder_current ≡ n)

interrupts-Runs :
    (mck d n : ℕ) (is : List Interrupt) (a : Axis)
    → no_switch is ≡ true
    → Runs d n a
    → Runs d n (interrupts mck is a)
unfolding Runs interrupts interrupt no_switch
interrupts-Runs mck d n [] a h r = r
interrupts-Runs mck d n (encoder ∷ is) a h r =
    interrupts-Runs mck d n is (interrupt mck encoder a) h (ground arith)
interrupts-Runs mck d n (step ∷ is) a h r =
    interrupts-Runs mck d n is (interrupt mck step a) h (ground arith)
interrupts-Runs mck d n (accel ∷ is) a h r =
    interrupts-Runs mck d n is (interrupt mck accel a) h (ground arith)
interrupts-Runs mck d n (ls_home _ ∷ is) a h r = cc
interrupts-Runs mck d n (ls_far _ ∷ is) a h r = cc

start_axis-Runs :
    (mck d : ℕ) (a b : Axis) (motion : AxisMotionSpec)
    → motion.dir ≡ axis_dir_other d
    → start_axis mck a motion ≡ (axis_ok, b)
    → Runs d a.state.encoder_current b
unfolding start_axis Runs
start_axis-Runs mck d a b motion e s = ground arith

-- A motion that was accepted with a direction other than the two of AxisDirection does not end
-- without a limit switch: after any pulses and timer interrupts in any order the axis still moves,
-- and its position is the one of the start.
pub runs_away :
    (mck d : ℕ) (a b : Axis) (motion : AxisMotionSpec) (is : List Interrupt)
    → motion.dir ≡ axis_dir_other d
    → start_axis mck a motion ≡ (axis_ok, b)
    → no_switch is ≡ true
    → ((interrupts mck is b).state.moving ≡ true)
      × ((interrupts mck is b).state.encoder_current ≡ a.state.encoder_current)
unfolding Runs
runs_away mck d a b motion is e s h =
    let r =
      interrupts-Runs mck d a.state.encoder_current is b h (start_axis-Runs mck d a b motion e s) in
    (r.0, r.2)
