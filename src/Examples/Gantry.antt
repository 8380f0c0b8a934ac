-- ===== src/Examples/Gantry.antt =====
-- An axis with the pins and timers of the x-axis of firmware/src/conf.h.
use mpmt_test_stand.Prelude.{
  ℕ, ◌≤◌, ◌≡◌, ◌≢◌, ◌⊎◌, refl, true, false, some, List, [], ◌∷◌, arith, add32, ◌*◌, ◌-◌, ◌/◌,
}
use mpmt_test_stand.Shared.{axis_dir_positive, axis_dir_other, axis_ok}
use mpmt_test_stand.Gantry.Hardware.{TimerChannel}
use mpmt_test_stand.Gantry.Timer.{reset_pwm_timer, reset_timer_interrupt}
use mpmt_test_stand.Gantry.Kinematics.{
  VelProfile, with_sign, generate_vel_profile, calc_dist_accel, signed_profile,
}
use mpmt_test_stand.Gantry.Kinematics.Profiles.{IsTrapezoid, generate_vel_profile-IsTrapezoid}
use mpmt_test_stand.Gantry.State.{AxisIo, AxisMech, AxisMotionSpec, vel_seg_accelerate, Axis}
use mpmt_test_stand.Gantry.Axis.{setup_axis, start_axis, validate_motion, reached_target}
use mpmt_test_stand.Gantry.Isr.{Interrupt, encoder, step, accel, ls_home, interrupt, interrupts}
use mpmt_test_stand.Gantry.Isr.Stop.{stop_at_goal, speed_limits}
use mpmt_test_stand.Gantry.Isr.Timers.{
  IsSynced, Event, started, stopped, interrupted, course_of, course_of-IsSynced,
}
use mpmt_test_stand.Gantry.Isr.Far.{only_presses, far_stays_pressed}
use mpmt_test_stand.Gantry.Isr.Runaway.{no_switch, runs_away}

abbrev pub step_timer : TimerChannel
step_timer = record { tc = 2; channel = 0; irq = 33 }

abbrev pub accel_timer : TimerChannel
accel_timer = record { tc = 1; channel = 1; irq = 31 }

abbrev pub io_x : AxisIo
io_x = record {
  step = step_timer;
  pio_step = 2;
  pio_step_periph = 1;
  pio_step_pin_mask = 33554432;
  pin_dir = 6;
  pin_enc_a = 7;
  pin_enc_b = 8;
  pin_ls_home = 9;
  pin_ls_far = 10;
  dir_pos_level = 0;
  ls_pressed_level = 0;
}

abbrev pub mech : AxisMech
mech = record { counts_per_rev = 500; steps_per_rev = 800 }

abbrev upwards : ℕ → AxisMotionSpec
upwards n = record {
  dir = axis_dir_positive;
  total_counts = n;
  accel = 1600;
  vel_start = 160;
  vel_hold = 160;
}

abbrev pub standing : Axis
standing = record {
  io = io_x;
  mech = mech;
  accel = accel_timer;
  motion = record {
    spec = upwards 0;
    profile = record { dist_accel = 0; dist_hold = 0; dist_decel = 0 };
  };
  state = record {
    moving = false;
    ls_home_pressed = false;
    ls_far_pressed = false;
    velocity = 0;
    next_velocity = 0;
    velocity_segment = vel_seg_accelerate;
    encoder_current = 0;
    encoder_target = 0;
    dir = axis_dir_positive;
  };
  calls = [];
}

-- The master clock of the controller.
abbrev pub mck : ℕ
mck = 84000000

-- Two counts upwards, at one speed.
abbrev pub moving_axis : Axis
moving_axis = (start_axis mck standing (upwards 2)).1

abbrev pub drive : List Interrupt
drive = accel ∷ encoder ∷ step ∷ encoder ∷ accel ∷ []

stop_at_goal_example :
    reached_target axis_dir_positive
      (interrupts mck drive moving_axis).state.encoder_current
      (add32 0 (with_sign false 2))
    ≡ true
unfolding start_axis interrupts interrupt validate_motion generate_vel_profile reset_pwm_timer
    reset_timer_interrupt calc_dist_accel with_sign
stop_at_goal_example =
    stop_at_goal mck standing moving_axis (upwards 2) drive (omega arith, omega arith, omega arith)
      refl refl refl

speed_limits_example :
    let s = (interrupts mck drive moving_axis).state in
    (160 ≤ s.velocity)
    × ((s.velocity ≤ 160) ⊎ (s.velocity ≤ 160))
    × (160 ≤ s.next_velocity)
    × ((s.next_velocity ≤ 160) ⊎ (s.next_velocity ≤ 160))
unfolding start_axis interrupts interrupt validate_motion generate_vel_profile calc_dist_accel
speed_limits_example =
    speed_limits mck standing moving_axis (upwards 2) drive (omega arith, omega arith, omega arith)
      refl refl

-- Start, run, hit the home switch, start again, stop.
abbrev history : List Event
history =
    started (upwards 7)
    ∷ interrupted encoder
    ∷ interrupted accel
    ∷ interrupted (ls_home 1)
    ∷ started (upwards 3)
    ∷ stopped
    ∷ []

course_of-IsSynced_example : IsSynced (course_of mck history (setup_axis standing io_x mech))
course_of-IsSynced_example = course_of-IsSynced mck standing io_x mech history refl

abbrev sideways : AxisMotionSpec
sideways = record {
  dir = axis_dir_other 2;
  total_counts = 2;
  accel = 1600;
  vel_start = 160;
  vel_hold = 160;
}

runs_away_example :
    ((interrupts mck drive (start_axis mck standing sideways).1).state.moving ≡ true)
    × ((interrupts mck drive (start_axis mck standing sideways).1).state.encoder_current ≡ 0)
unfolding start_axis validate_motion generate_vel_profile no_switch
runs_away_example =
    runs_away mck 2 standing (start_axis mck standing sideways).1 sideways drive refl refl refl

generate_vel_profile-IsTrapezoid_example :
    (p : VelProfile) × (generate_vel_profile true 10 20 40 1000 ≡ some (signed_profile true p))
    × IsTrapezoid ((40 * 40 - 20 * 20) / (2 * 10)) 1000 p
generate_vel_profile-IsTrapezoid_example =
    generate_vel_profile-IsTrapezoid true 10 20 40 1000 (omega arith) (omega arith) (omega arith)
      (omega arith) (omega arith)

abbrev at_far_end : Axis
at_far_end = record standing { state = record standing.state { ls_far_pressed = true } }

far_stays_pressed_example :
    (start_axis mck (course_of mck history at_far_end) (upwards 7)).0 ≢ axis_ok
unfolding only_presses
far_stays_pressed_example = far_stays_pressed mck at_far_end history (upwards 7) refl refl refl
