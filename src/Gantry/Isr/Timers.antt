-- ===== src/Gantry/Isr/Timers.antt =====
-- The timers of an axis against the state that the firmware keeps of it.
use mpmt_test_stand.Prelude.{ℕ, ◌≡◌, refl, true, false, List, [], ◌∷◌, arith}
use mpmt_test_stand.Gantry.Hardware.{TimerChannel, same_timer, is_running}
use mpmt_test_stand.Gantry.Timer.{reset_pwm_timer, reset_timer_interrupt}
use mpmt_test_stand.Gantry.State.{AxisMotionSpec, Axis, AxisIo, AxisMech}
use mpmt_test_stand.Gantry.Axis.{
  stop_axis, reset_axis, setup_pins, setup_interrupts, setup_axis, start_axis,
}
use mpmt_test_stand.Gantry.Isr.{Interrupt, encoder, step, accel, ls_home, ls_far, interrupt}

pub same_timer_refl : (t : TimerChannel) → same_timer t t ≡ true
same_timer_refl t = ground arith

same_timer_sym : (t u : TimerChannel) → same_timer t u ≡ same_timer u t
same_timer_sym t u = ground arith

-- The step timer and the acceleration timer are different channels, and each runs exactly while the
-- axis is moving; an axis that stands still has no change of speed pending.
pub record IsSynced (a : Axis) : Type 0 where
  pub apart : same_timer a.io.step a.accel ≡ false
  pub step_runs : is_running a.io.step a.calls ≡ a.state.moving
  pub accel_runs : is_running a.accel a.calls ≡ a.state.moving
  pub settled : a.state.moving ≡ false → a.state.next_velocity ≡ a.state.velocity

pub stop_axis-IsSynced : (a : Axis) → same_timer a.io.step a.accel ≡ false → IsSynced (stop_axis a)
unfolding stop_axis is_running
stop_axis-IsSynced a h = record {
  apart = h;
  step_runs = ground (arith, same_timer_refl a.io.step);
  accel_runs = ground (arith, same_timer_refl a.accel);
  settled = λ _. refl;
}

pub start_axis-IsSynced :
    (mck : ℕ) (a : Axis) (motion : AxisMotionSpec)
    → IsSynced a
    → IsSynced (start_axis mck a motion).1
unfolding start_axis is_running reset_pwm_timer reset_timer_interrupt
start_axis-IsSynced mck a motion s =
    ground (arith, same_timer_refl a.io.step, same_timer_refl a.accel)

pub interrupt-IsSynced :
    (mck : ℕ) (i : Interrupt) (a : Axis) → IsSynced a → IsSynced (interrupt mck i a)
unfolding interrupt is_running stop_axis reset_pwm_timer
interrupt-IsSynced mck encoder a s = record {
  apart = s.apart;
  step_runs = s.step_runs;
  accel_runs = s.accel_runs;
  settled = s.settled;
}
interrupt-IsSynced mck step a s = ground (arith, same_timer_refl a.io.step, same_timer_refl a.accel)
interrupt-IsSynced mck accel a s =
    ground (arith, same_timer_refl a.io.step, same_timer_refl a.accel)
interrupt-IsSynced mck (ls_home level) a s =
    ground (arith, same_timer_refl a.io.step, same_timer_refl a.accel)
interrupt-IsSynced mck (ls_far level) a s =
    ground (arith, same_timer_refl a.io.step, same_timer_refl a.accel)

-- What happens to an axis once it is set up: its four calls and its interrupts.
pub data Event : Type 0 where
  started : AxisMotionSpec → Event
  stopped reset : Event
  interrupted : Interrupt → Event

unfoldable pub happen : ℕ → Event → Axis → Axis
unfolding start_axis stop_axis reset_axis interrupt
happen mck (started motion) a = (start_axis mck a motion).1
happen mck stopped a = stop_axis a
happen mck reset a = reset_axis a
happen mck (interrupted i) a = interrupt mck i a

unfoldable pub course_of : ℕ → List Event → Axis → Axis
course_of mck [] a = a
course_of mck (e ∷ es) a = course_of mck es (happen mck e a)

pub reset_axis-IsSynced :
    (a : Axis) → same_timer a.io.step a.accel ≡ false → IsSynced (reset_axis a)
unfolding reset_axis stop_axis is_running
reset_axis-IsSynced a h = record {
  apart = h;
  step_runs = ground (arith, same_timer_refl a.io.step);
  accel_runs = ground (arith, same_timer_refl a.accel);
  settled = λ _. refl;
}

happen-IsSynced : (mck : ℕ) (e : Event) (a : Axis) → IsSynced a → IsSynced (happen mck e a)
unfolding happen
happen-IsSynced mck (started motion) a s = start_axis-IsSynced mck a motion s
happen-IsSynced mck stopped a s = stop_axis-IsSynced a s.apart
happen-IsSynced mck reset a s = reset_axis-IsSynced a s.apart
happen-IsSynced mck (interrupted i) a s = interrupt-IsSynced mck i a s

course_of-keeps :
    (mck : ℕ) (es : List Event) (a : Axis) → IsSynced a → IsSynced (course_of mck es a)
unfolding course_of
course_of-keeps mck [] a s = s
course_of-keeps mck (e ∷ es) a s =
    course_of-keeps mck es (happen mck e a) (happen-IsSynced mck e a s)

pub setup_axis-IsSynced :
    (a : Axis) (io : AxisIo) (mech : AxisMech)
    → same_timer io.step a.accel ≡ false
    → IsSynced (setup_axis a io mech)
unfolding setup_axis
setup_axis-IsSynced a io mech h =
    reset_axis-IsSynced (setup_interrupts (setup_pins (record a { io = io; mech = mech }))) h

-- Let the step timer and the acceleration timer of an axis be different channels. After its setup,
-- and after any starts, stops, resets and interrupts in any order, each of the two timers runs
-- exactly while the axis moves, and an axis that stands still has no change of velocity pending.
pub course_of-IsSynced :
    (mck : ℕ) (a : Axis) (io : AxisIo) (mech : AxisMech) (es : List Event)
    → same_timer io.step a.accel ≡ false
    → IsSynced (course_of mck es (setup_axis a io mech))
course_of-IsSynced mck a io mech es h =
    course_of-keeps mck es (setup_axis a io mech) (setup_axis-IsSynced a io mech h)
