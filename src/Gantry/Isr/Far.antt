-- ===== src/Gantry/Isr/Far.antt =====
-- The far limit switch: its interrupt comes only when the switch is pressed.
use mpmt_test_stand.Prelude.{ℕ, ◌≡◌, ◌≢◌, refl, Bool, true, List, [], ◌∷◌, arith, ◌==◌, ◌&&◌}
use mpmt_test_stand.Shared.{axis_dir_positive, axis_ok}
use mpmt_test_stand.Gantry.State.{AxisMotionSpec, Axis}
use mpmt_test_stand.Gantry.Axis.{start_axis, stop_axis, reset_axis, validate_motion}
use mpmt_test_stand.Gantry.Isr.{Interrupt, encoder, step, accel, ls_home, ls_far, interrupt}
use mpmt_test_stand.Gantry.Isr.Timers.{
  Event, started, stopped, reset, interrupted, happen, course_of,
}

-- Each interrupt of the far switch reads the level of a pressed switch, as with the trigger that
-- setup_interrupts attaches.
unfoldable pub only_presses : ℕ → List Event → Bool
only_presses level [] = true
only_presses level (interrupted (ls_far read) ∷ es) =
    let rest = only_presses level es in read == level && rest
only_presses level (_ ∷ es) = only_presses level es

Pressed : ℕ → Axis → Type 0
Pressed level a = (a.state.ls_far_pressed ≡ true) × (a.io.ls_pressed_level ≡ level)

start_axis-Pressed :
    (mck level : ℕ) (motion : AxisMotionSpec) (a : Axis)
    → Pressed level a
    → Pressed level (start_axis mck a motion).1
unfolding Pressed start_axis
start_axis-Pressed mck level motion a h = ground arith

interrupt-Pressed :
    (mck level : ℕ) (i : Interrupt) (es : List Event) (a : Axis)
    → only_presses level (interrupted i ∷ es) ≡ true
    → Pressed level a
    → Pressed level (interrupt mck i a) × (only_presses level es ≡ true)
unfolding Pressed interrupt only_presses
interrupt-Pressed mck level encoder es a o h = (h, o)
interrupt-Pressed mck level step es a o h = ground arith
interrupt-Pressed mck level accel es a o h = ground arith
interrupt-Pressed mck level (ls_home read) es a o h = (h, o)
interrupt-Pressed mck level (ls_far read) es a o h = ground arith

course_of-Pressed :
    (mck level : ℕ) (es : List Event) (a : Axis)
    → only_presses level es ≡ true
    → Pressed level a
    → Pressed level (course_of mck es a)
unfolding Pressed course_of happen only_presses reset_axis stop_axis
course_of-Pressed mck level [] a o h = h
course_of-Pressed mck level (started motion ∷ es) a o h =
    course_of-Pressed mck level es (start_axis mck a motion).1 o
      (start_axis-Pressed mck level motion a h)
course_of-Pressed mck level (stopped ∷ es) a o h = course_of-Pressed mck level es (stop_axis a) o h
course_of-Pressed mck level (reset ∷ es) a o h = course_of-Pressed mck level es (reset_axis a) o h
course_of-Pressed mck level (interrupted i ∷ es) a o h =
    let (p, rest) = interrupt-Pressed mck level i es a o h in
    course_of-Pressed mck level es (interrupt mck i a) rest p

-- Let the far switch of an axis be marked as pressed, and let every later interrupt of that switch
-- read the level of a pressed switch. Then, after any starts, stops, resets and interrupts in any
-- order, no motion in the positive direction is accepted.
pub far_stays_pressed :
    (mck : ℕ) (a : Axis) (es : List Event) (motion : AxisMotionSpec)
    → a.state.ls_far_pressed ≡ true
    → only_presses a.io.ls_pressed_level es ≡ true
    → motion.dir ≡ axis_dir_positive
    → (start_axis mck (course_of mck es a) motion).0 ≢ axis_ok
unfolding Pressed start_axis validate_motion
far_stays_pressed mck a es motion p o d =
    let stays = course_of-Pressed mck a.io.ls_pressed_level es a o (p, refl) in
    ground (arith, stays)
