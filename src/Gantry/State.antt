-- ===== src/Gantry/State.antt =====
-- The structs of Axis.h and Axis.cpp. Positions are bit patterns of int32_t, velocities are uint32_t.
use mpmt_test_stand.Prelude.{ℕ, Bool, List}
use mpmt_test_stand.Shared.{AxisDirection}
use mpmt_test_stand.Gantry.Kinematics.{VelProfile}
use mpmt_test_stand.Gantry.Hardware.{TimerChannel, HwCall}

-- `step` stands for tc_step, tc_step_channel and tc_step_irq.
pub record AxisIo : Type 0 where
  pub step : TimerChannel
  pub pio_step : ℕ
  pub pio_step_periph : ℕ
  pub pio_step_pin_mask : ℕ
  pub pin_dir : ℕ
  pub pin_enc_a : ℕ
  pub pin_enc_b : ℕ
  pub pin_ls_home : ℕ
  pub pin_ls_far : ℕ
  pub dir_pos_level : ℕ
  pub ls_pressed_level : ℕ

pub record AxisMech : Type 0 where
  pub counts_per_rev : ℕ
  pub steps_per_rev : ℕ

pub record AxisMotionSpec : Type 0 where
  pub dir : AxisDirection
  pub total_counts : ℕ
  pub accel : ℕ
  pub vel_start : ℕ
  pub vel_hold : ℕ

pub data VelSeg : Type 0 where
  vel_seg_accelerate vel_seg_hold vel_seg_decelerate : VelSeg

pub record AxisState : Type 0 where
  pub moving : Bool
  pub ls_home_pressed : Bool
  pub ls_far_pressed : Bool
  pub velocity : ℕ
  pub next_velocity : ℕ
  pub velocity_segment : VelSeg
  pub encoder_current : ℕ
  pub encoder_target : ℕ
  pub dir : AxisDirection

pub record AxisMotion : Type 0 where
  pub spec : AxisMotionSpec
  pub profile : VelProfile

-- `accel` stands for the timer of AxisInterrupts; its handlers are fixed for each axis. `calls` is not
-- a field of the struct: it is the log of the calls made for this axis, newest first.
pub record Axis : Type 0 where
  pub io : AxisIo
  pub mech : AxisMech
  pub accel : TimerChannel
  pub motion : AxisMotion
  pub state : AxisState
  pub calls : List HwCall
