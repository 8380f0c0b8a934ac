-- ===== src/Stand.antt =====
-- mPMTTestStand.cpp: the firmware's main object. Its axes are the static objects of Axis.cpp, which
-- x_state and y_state point into.
pub mod Handlers
pub mod Homing
pub mod Phases
pub mod Homed
pub mod Ends
pub mod Covered
pub mod Safety
pub mod Loop
pub mod Moments
pub mod Orders
pub mod Remote
pub mod Calibrated
use mpmt_test_stand.Prelude.{
  ℕ, zero, suc, Bool, true, false, Option, none, some, List, [], ◌∷◌, ◌==◌, not, ◌&&◌, ◌||◌,
  if◌then◌else◌,
}
use mpmt_test_stand.Shared.{
  Status, status_idle, status_homing, status_moving, status_fault, AxisDirection, axis_dir_positive,
  axis_dir_negative, cast_direction, AxisId, axis_x, axis_y, AxisResult, axis_ok, axis_err_invalid,
  MoveMsgData, Calibration, msg_id_home, msg_id_move, msg_id_stop, msg_id_get_status,
  msg_id_get_position, msg_id_get_axis_state, msg_id_get_temp, msg_id_calibrate,
}
use mpmt_test_stand.Gantry.State.{AxisIo, AxisMech, AxisMotionSpec, Axis}
use mpmt_test_stand.Gantry.Axis.{setup_axis, start_axis, stop_axis, reset_axis}
use mpmt_test_stand.Gantry.Isr.{Interrupt, interrupt}
use mpmt_test_stand.Thermistor.{Doubles, Board, ThermistorArrayIo, scaled}
use mpmt_test_stand.Thermistor
use mpmt_test_stand.Serial.{is_ok, Message, msg_id_echo, SerialResult, serial_ok}
use mpmt_test_stand.Serial.Device.{SerialDevice}
use mpmt_test_stand.Serial.Exec.{
  TestStandComm, Exec, out_of_fuel, pure, gets, modify, ◌>>=◌, ◌>>◌, on_device,
}
use mpmt_test_stand.Serial.Comm
use mpmt_test_stand.Serial.Controller

-- mPMTTestStandConfig, without the serial port that the device D holds
pub record Config : Type 0 where
  pub serial_comm_baud_rate : ℕ
  pub io_axis_x : AxisIo
  pub io_axis_y : AxisIo
  pub axis_mech : AxisMech
  pub io_temp : ThermistorArrayIo

pub record Stand (D : Type 0) : Type 0 where
  pub conf : Config
  pub cal : Calibration
  pub status : Status
  pub home_a_done : Bool
  pub x : Axis
  pub y : Axis
  pub comm : TestStandComm D

-- How a pass of the loop ends: the firmware carries on, or it has used the null pointer that
-- `get_axis` returns, after which nothing is defined.
pub data Fate : Type 0 where
  carries_on null_axis : Fate

-- get_axis on the byte of a message; `none` is nullptr
abbrev pub get_axis : ℕ → Option AxisId
get_axis n = if n == 0 then some axis_x else if n == 1 then some axis_y else none

abbrev pub int32_max : ℕ
int32_max = 2147483647

module _ {D : Type 0} where
  abbrev pub axis_of : AxisId → Stand D → Axis
  axis_of axis_x s = s.x
  axis_of axis_y s = s.y

  abbrev pub with_axis : AxisId → Axis → Stand D → Stand D
  with_axis axis_x a s = record s { x = a }
  with_axis axis_y a s = record s { y = a }

  abbrev pub with_status : Status → Stand D → Stand D
  with_status status s = record s { status = status }

  abbrev pub with_comm : TestStandComm D → Stand D → Stand D
  with_comm c s = record s { comm = c }

  abbrev pub on_comm : {A : Type 0} → Exec (TestStandComm D) A → Exec (Stand D) A
  on_comm m s = elim (m s.comm) [ none ↦ none | some (a, c) ↦ some (a, with_comm c s) ]

  -- axis_start
  abbrev pub start : ℕ → AxisId → AxisMotionSpec → Stand D → AxisResult × Stand D
  start mck id motion s =
      let (res, a) = start_axis mck (axis_of id s) motion in (res, with_axis id a s)

  -- The motion of both halves of the homing routine.
  abbrev pub homing_motion : AxisDirection → Stand D → AxisMotionSpec
  homing_motion dir s = record {
    dir = dir;
    total_counts = int32_max;
    accel = s.cal.cal_gantry.accel;
    vel_start = s.cal.cal_gantry.vel_start;
    vel_hold = s.cal.cal_gantry.vel_home;
  }

  unfoldable pub handle_home_a : ℕ → Stand D → Stand D
  handle_home_a mck s =
      let motion = homing_motion axis_dir_negative s in
      let after_x = (start mck axis_x motion s).1 in
      let after_y = (start mck axis_y motion after_x).1 in
      record after_y { home_a_done = false; status = status_homing }

  unfoldable pub handle_home_b : ℕ → Stand D → Stand D
  handle_home_b mck s =
      let motion = homing_motion axis_dir_positive s in
      let after_x = (start mck axis_x motion s).1 in
      let after_y = (start mck axis_y motion after_x).1 in
      record after_y { home_a_done = true; status = status_homing }

  unfoldable pub handle_stop : Stand D → Stand D
  unfolding stop_axis
  handle_stop s = record s { x = stop_axis s.x; y = stop_axis s.y; status = status_idle }

  -- The `switch` on the status in `execute`. Its last test reads the far switch of the x-axis again.
  abbrev pub is_moving : Stand D → Bool
  is_moving s = s.x.state.moving || s.y.state.moving

  abbrev pub after_move : Stand D → Status
  after_move s =
      if is_moving s
      then status_moving
      else if s.x.state.ls_home_pressed || s.x.state.ls_far_pressed || s.y.state.ls_home_pressed
          || s.x.state.ls_far_pressed
      then status_fault
      else status_idle

  pub update_homing : ℕ → Bool → Stand D → Stand D
  unfolding handle_home_b reset_axis
  update_homing mck false s =
      if is_moving s
      then with_status status_homing s
      else if s.x.state.ls_home_pressed && s.y.state.ls_home_pressed
      then handle_home_b mck s
      else with_status status_fault s
  update_homing mck true s = if is_moving s then with_status status_homing s else record s {
    x = reset_axis s.x;
    y = reset_axis s.y;
    status = status_idle;
    home_a_done = false;
  }

  pub update_from : ℕ → Status → Stand D → Stand D
  unfolding update_homing
  update_from mck status_idle s = s
  update_from mck status_moving s = with_status (after_move s) s
  update_from mck status_homing s = update_homing mck s.home_a_done s
  update_from mck status_fault s = s

  unfoldable pub update_status : ℕ → Stand D → Stand D
  unfolding update_from
  update_status mck s = update_from mck s.status s

  abbrev pub move_motion : MoveMsgData → Stand D → AxisMotionSpec
  move_motion move s = record {
    dir = cast_direction move.dir;
    total_counts = move.dist_counts;
    accel = s.cal.cal_gantry.accel;
    vel_start = s.cal.cal_gantry.vel_start;
    vel_hold = move.vel_hold;
  }

  -- handle_move from the motion on to the reply
  abbrev pub begin_move : ℕ → MoveMsgData → AxisId → Stand D → AxisResult × Stand D
  begin_move mck move id s =
      let (res, after) = start mck id (move_motion move s) s in
      (res, elim res [ axis_ok ↦ with_status status_moving after | _ ↦ after ])

  abbrev pub with_calibration : Option Calibration → Stand D → Stand D
  with_calibration none s = s
  with_calibration (some cal) s = record s { cal = cal }

  abbrev pub setup_axes : Stand D → Stand D
  setup_axes s = record s {
    x = setup_axis s.x s.conf.io_axis_x s.conf.axis_mech;
    y = setup_axis s.y s.conf.io_axis_y s.conf.axis_mech;
  }

  -- The interrupt of an axis.
  unfoldable pub axis_interrupt : ℕ → AxisId → Interrupt → Stand D → Stand D
  axis_interrupt mck id i s = with_axis id (interrupt mck i (axis_of id s)) s
