-- ===== src/Gantry/Axis.antt =====
-- Axis.cpp: starting, stopping and the interrupt handlers. What a handler reads from a pin is an
-- argument. `mck` is the frequency of the master clock (Timer).
pub mod Start
use mpmt_test_stand.Prelude.{
  ℕ, zero, suc, ◌*◌, ◌/◌, ◌-◌, Bool, true, false, List, [], ◌∷◌, ◌==◌, ltb, not, ◌&&◌,
  if◌then◌else◌, add32, sub32, mul32, int32_leb, Option, none, some,
}
use mpmt_test_stand.Shared.{
  AxisDirection, axis_dir_positive, axis_dir_negative, axis_dir_other, AxisResult, axis_ok,
  axis_err_already_moving, axis_err_ls_home, axis_err_ls_far, axis_err_invalid,
}
use mpmt_test_stand.Gantry.Kinematics.{VelProfile, generate_vel_profile}
use mpmt_test_stand.Gantry.Hardware.{
  HwCall, output, input, input_pullup, rising, falling, change, isr_encoder, isr_ls_home,
  isr_ls_far, pin_mode, digital_write, attach_interrupt, pio_ifer, pio_difsr, pio_scdr,
}
use mpmt_test_stand.Gantry.Timer.{
  configure_pwm_timer, configure_timer_interrupt, stop_timer, reset_pwm_timer,
  reset_timer_interrupt,
}
use mpmt_test_stand.Gantry.State.{
  AxisIo, AxisMech, AxisMotionSpec, VelSeg, vel_seg_accelerate, vel_seg_hold, vel_seg_decelerate,
  AxisState, AxisMotion, Axis,
}

abbrev pub sclk_freq : ℕ
sclk_freq = 32768

abbrev pub debounce_filter_ms : ℕ
debounce_filter_ms = 50

abbrev pub vel_duty_cycle : ℕ
vel_duty_cycle = 25

abbrev pub is_positive : AxisDirection → Bool
is_positive axis_dir_positive = true
is_positive _ = false

abbrev pub is_negative : AxisDirection → Bool
is_negative axis_dir_negative = true
is_negative _ = false

-- REACHED_TARGET
abbrev pub reached_target : AxisDirection → ℕ → ℕ → Bool
reached_target axis_dir_positive cur tar = int32_leb tar cur
reached_target axis_dir_negative cur tar = int32_leb cur tar
reached_target (axis_dir_other _) cur tar = false

pub setup_pins : Axis → Axis
setup_pins axis = record axis {
  calls =
      pin_mode axis.io.pin_ls_far input_pullup
      ∷ pin_mode axis.io.pin_ls_home input_pullup
      ∷ pin_mode axis.io.pin_enc_b input
      ∷ pin_mode axis.io.pin_enc_a input
      ∷ pin_mode axis.io.pin_dir output
      ∷ configure_pwm_timer axis.io.step axis.io.pio_step axis.io.pio_step_periph
          axis.io.pio_step_pin_mask axis.calls;
}

setup_debouncing : ℕ → ℕ → List HwCall → List HwCall
setup_debouncing pin filter_ms calls =
    pio_scdr pin (sub32 (mul32 sclk_freq filter_ms / 1000) 1) ∷ pio_difsr pin ∷ pio_ifer pin ∷ calls

pub setup_interrupts : Axis → Axis
unfolding setup_debouncing
setup_interrupts axis = record axis {
  calls =
      attach_interrupt axis.io.pin_ls_far isr_ls_far
        (if axis.io.ls_pressed_level == 0 then falling else rising)
      ∷ setup_debouncing axis.io.pin_ls_far debounce_filter_ms (
          attach_interrupt axis.io.pin_ls_home isr_ls_home change
          ∷ setup_debouncing axis.io.pin_ls_home debounce_filter_ms (
              attach_interrupt axis.io.pin_enc_a isr_encoder rising
              ∷ configure_timer_interrupt axis.accel axis.calls));
}

unfoldable pub stop_axis : Axis → Axis
unfolding stop_timer
stop_axis axis = record axis {
  calls = stop_timer axis.accel (stop_timer axis.io.step axis.calls);
  state = record axis.state { moving = false; velocity = 0; next_velocity = 0 };
}

unfoldable pub reset_axis : Axis → Axis
unfolding stop_axis
reset_axis axis =
    let stopped = stop_axis axis in
    record stopped {
      state = record stopped.state {
        moving = false;
        velocity = 0;
        encoder_current = 0;
        encoder_target = 0;
        dir = axis_dir_positive;
      };
    }

unfoldable pub setup_axis : Axis → AxisIo → AxisMech → Axis
unfolding setup_pins setup_interrupts reset_axis configure_pwm_timer configure_timer_interrupt
setup_axis axis io mech =
    reset_axis (setup_interrupts (setup_pins (record axis { io = io; mech = mech })))

unfoldable pub validate_motion : Axis → AxisMotionSpec → AxisResult
validate_motion axis motion =
    if axis.state.moving
    then axis_err_already_moving
    else if is_positive motion.dir && axis.state.ls_far_pressed
    then axis_err_ls_far
    else if is_negative motion.dir && axis.state.ls_home_pressed
    then axis_err_ls_home
    else axis_ok

-- Motor steps to encoder counts.
abbrev pub to_counts : AxisMech → ℕ → ℕ
to_counts mech steps = mul32 steps mech.counts_per_rev / mech.steps_per_rev

abbrev pub profile_of : Axis → AxisMotionSpec → Option VelProfile
profile_of axis motion =
    generate_vel_profile (is_negative motion.dir) (to_counts axis.mech motion.accel)
      (to_counts axis.mech motion.vel_start) (to_counts axis.mech motion.vel_hold)
      motion.total_counts

-- start_axis from the point where the motion is accepted
begin_motion : ℕ → Axis → AxisMotionSpec → VelProfile → Axis
begin_motion mck axis motion profile = record axis {
  motion = record { spec = motion; profile = profile };
  state = record axis.state {
    moving = true;
    velocity = motion.vel_start;
    next_velocity = motion.vel_start;
    velocity_segment = vel_seg_accelerate;
    encoder_target = add32 axis.state.encoder_current profile.dist_accel;
    dir = motion.dir;
  };
  calls = reset_timer_interrupt mck axis.accel motion.accel (
      reset_pwm_timer mck axis.io.step motion.vel_start vel_duty_cycle (
        digital_write axis.io.pin_dir (
          if is_positive motion.dir
          then axis.io.dir_pos_level
          else if axis.io.dir_pos_level == 0
          then 1
          else 0)
        ∷ axis.calls));
}

start_valid : ℕ → Axis → AxisMotionSpec → Option VelProfile → AxisResult × Axis
unfolding begin_motion
start_valid mck axis motion none = (axis_err_invalid, axis)
start_valid mck axis motion (some profile) = (axis_ok, begin_motion mck axis motion profile)

start_checked : ℕ → Axis → AxisMotionSpec → AxisResult → AxisResult × Axis
unfolding start_valid
start_checked mck axis motion axis_ok = start_valid mck axis motion (profile_of axis motion)
start_checked mck axis motion error = (error, axis)

unfoldable pub start_axis : ℕ → Axis → AxisMotionSpec → AxisResult × Axis
unfolding start_checked validate_motion
start_axis mck axis motion = start_checked mck axis motion (validate_motion axis motion)
