-- ===== src/Gantry/Isr.antt =====
-- Axis.cpp: the interrupt handlers of an axis. Those of the x-axis and of the y-axis are the same
-- functions on the two axes.
pub mod Course
pub mod Stop
pub mod Timers
pub mod Runaway
pub mod Far
use mpmt_test_stand.Prelude.{
  ℕ, Bool, true, false, List, [], ◌∷◌, ◌==◌, ltb, not, if◌then◌else◌, add32, sub32,
}
use mpmt_test_stand.Shared.{AxisDirection, axis_dir_positive, axis_dir_negative, axis_dir_other}
use mpmt_test_stand.Gantry.Hardware.{TimerChannel, tc_get_status}
use mpmt_test_stand.Gantry.Timer.{reset_pwm_timer}
use mpmt_test_stand.Gantry.State.{
  VelSeg, vel_seg_accelerate, vel_seg_hold, vel_seg_decelerate, AxisState, Axis,
}
use mpmt_test_stand.Gantry.Axis.{stop_axis, reached_target, vel_duty_cycle}

abbrev with_state : Axis → AxisState → Axis
with_state axis s = record axis { state = s }

abbrev count_pulse : AxisDirection → ℕ → ℕ
count_pulse axis_dir_positive n = add32 n 1
count_pulse axis_dir_negative n = sub32 n 1
count_pulse (axis_dir_other _) n = n

unfoldable pub handle_isr_encoder : Axis → Axis
handle_isr_encoder axis =
    with_state axis (record axis.state {
      encoder_current = count_pulse axis.state.dir axis.state.encoder_current;
    })

unfoldable pub handle_isr_ls_home : ℕ → Axis → Axis
unfolding stop_axis
handle_isr_ls_home level axis =
    let stopped = stop_axis axis in
    with_state stopped
      (record stopped.state { ls_home_pressed = level == axis.io.ls_pressed_level })

unfoldable pub handle_isr_ls_far : ℕ → Axis → Axis
unfolding stop_axis
handle_isr_ls_far level axis =
    let stopped = stop_axis axis in
    with_state stopped (record stopped.state { ls_far_pressed = level == axis.io.ls_pressed_level })

unfoldable pub handle_isr_step : ℕ → Axis → Axis
handle_isr_step mck axis =
    if axis.state.next_velocity == axis.state.velocity then axis else record axis {
      state = record axis.state { velocity = axis.state.next_velocity };
      calls = reset_pwm_timer mck axis.io.step axis.state.next_velocity vel_duty_cycle axis.calls;
    }

-- The next segment of the profile: the error of the last one is carried over to its target.
next_segment : VelSeg → ℕ → Axis → Axis
next_segment segment dist axis =
    let error_counts = sub32 axis.state.encoder_target axis.state.encoder_current in
    with_state axis (record axis.state {
      velocity_segment = segment;
      encoder_target = add32 (add32 axis.state.encoder_current dist) error_counts;
    })

accel_segment : VelSeg → Bool → Axis → Axis
unfolding next_segment stop_axis
accel_segment vel_seg_accelerate true axis =
    next_segment vel_seg_hold axis.motion.profile.dist_hold axis
accel_segment vel_seg_accelerate false axis =
    if ltb axis.state.next_velocity axis.motion.spec.vel_hold
    then with_state axis (record axis.state { next_velocity = add32 axis.state.next_velocity 1 })
    else axis
accel_segment vel_seg_hold true axis =
    next_segment vel_seg_decelerate axis.motion.profile.dist_decel axis
accel_segment vel_seg_hold false axis = axis
accel_segment vel_seg_decelerate true axis = stop_axis axis
accel_segment vel_seg_decelerate false axis =
    if ltb axis.motion.spec.vel_start axis.state.next_velocity
    then with_state axis (record axis.state { next_velocity = sub32 axis.state.next_velocity 1 })
    else axis

unfoldable pub handle_isr_accel : Axis → Axis
unfolding accel_segment
handle_isr_accel axis =
    let s = axis.state in
    if s.moving
    then accel_segment s.velocity_segment (reached_target s.dir s.encoder_current s.encoder_target)
        axis
    else axis

-- An interrupt of an axis, with the level of the pin that its handler reads.
pub data Interrupt : Type 0 where
  encoder step accel : Interrupt
  ls_home ls_far : ℕ → Interrupt

-- The first call of the handler of a timer: reading the status takes the interrupt back.
abbrev acknowledge : TimerChannel → Axis → Axis
acknowledge t axis = record axis { calls = tc_get_status t ∷ axis.calls }

unfoldable pub interrupt : ℕ → Interrupt → Axis → Axis
unfolding handle_isr_encoder handle_isr_ls_home handle_isr_ls_far handle_isr_step handle_isr_accel
interrupt mck encoder axis = handle_isr_encoder axis
interrupt mck step axis = handle_isr_step mck (acknowledge axis.io.step axis)
interrupt mck accel axis = handle_isr_accel (acknowledge axis.accel axis)
interrupt mck (ls_home level) axis = handle_isr_ls_home level axis
interrupt mck (ls_far level) axis = handle_isr_ls_far level axis

-- Interrupts in the order in which they are taken.
unfoldable pub interrupts : ℕ → List Interrupt → Axis → Axis
interrupts mck [] axis = axis
interrupts mck (i ∷ is) axis = interrupts mck is (interrupt mck i axis)
