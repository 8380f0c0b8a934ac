-- ===== src/Shared.antt =====
-- What host and controller share besides the protocol: shared/shared_defs.h, the message identifiers
-- and packed structs of shared/TestStandMessages.h, and the enumerations of Gantry.h and Calibration.h.
-- An enumeration goes over the wire as a byte and comes back by a C cast, which checks nothing.
use mpmt_test_stand.Prelude.{ℕ, List, if◌then◌else◌, ◌==◌}

-- shared_defs.h
abbrev pub serial_baud_rate : ℕ
serial_baud_rate = 115200

abbrev pub msg_receive_timeout_ms : ℕ
msg_receive_timeout_ms = 250

abbrev pub encoder_counts_per_rev : ℕ
encoder_counts_per_rev = 500

abbrev pub motor_steps_per_rev : ℕ
motor_steps_per_rev = 800

pub data Status : Type 0 where
  status_idle status_homing status_moving status_fault : Status

abbrev pub status_code : Status → ℕ
status_code status_idle = 0
status_code status_homing = 1
status_code status_moving = 2
status_code status_fault = 3

-- TestStandMessages.h
abbrev pub msg_id_get_status : ℕ
msg_id_get_status = 0x40

abbrev pub msg_id_home : ℕ
msg_id_home = 0x41

abbrev pub msg_id_move : ℕ
msg_id_move = 0x42

abbrev pub msg_id_stop : ℕ
msg_id_stop = 0x43

abbrev pub msg_id_get_position : ℕ
msg_id_get_position = 0x44

abbrev pub msg_id_get_axis_state : ℕ
msg_id_get_axis_state = 0x45

abbrev pub msg_id_get_temp : ℕ
msg_id_get_temp = 0x46

abbrev pub msg_id_calibrate : ℕ
msg_id_calibrate = 0x47

abbrev pub msg_id_log : ℕ
msg_id_log = 0x80

abbrev pub msg_id_status : ℕ
msg_id_status = 0x81

abbrev pub msg_id_position : ℕ
msg_id_position = 0x82

abbrev pub msg_id_axis_state : ℕ
msg_id_axis_state = 0x83

abbrev pub msg_id_temp : ℕ
msg_id_temp = 0x84

abbrev pub msg_id_axis_result : ℕ
msg_id_axis_result = 0x85

pub record MoveMsgData : Type 0 where
  pub vel_hold : ℕ
  pub dist_counts : ℕ
  pub axis : ℕ
  pub dir : ℕ

-- The counts are bit patterns of int32_t.
pub record PositionMsgData : Type 0 where
  pub x_counts : ℕ
  pub y_counts : ℕ

-- Gantry.h. A cast of another byte gives a value that no constant names.
pub data AxisDirection : Type 0 where
  axis_dir_positive axis_dir_negative : AxisDirection
  axis_dir_other : ℕ → AxisDirection

abbrev pub cast_direction : ℕ → AxisDirection
cast_direction n =
    if n == 0 then axis_dir_positive else if n == 1 then axis_dir_negative else axis_dir_other n

pub data AxisId : Type 0 where
  axis_x axis_y : AxisId

abbrev pub axis_code : AxisId → ℕ
axis_code axis_x = 0
axis_code axis_y = 1

abbrev pub direction_code : AxisDirection → ℕ
direction_code axis_dir_positive = 0
direction_code axis_dir_negative = 1
direction_code (axis_dir_other n) = n

pub data AxisResult : Type 0 where
  axis_ok axis_err_already_moving axis_err_ls_home axis_err_ls_far axis_err_invalid : AxisResult

abbrev pub axis_result_code : AxisResult → ℕ
axis_result_code axis_ok = 0
axis_result_code axis_err_already_moving = 1
axis_result_code axis_err_ls_home = 2
axis_result_code axis_err_ls_far = 3
axis_result_code axis_err_invalid = 4

-- Calibration.h and TemperatureDAQ.h. A double is its eight bytes in memory.
pub record GantryCalibration : Type 0 where
  pub accel : ℕ
  pub vel_start : ℕ
  pub vel_home : ℕ

pub record ThermistorCalibration : Type 0 where
  pub c1 : List ℕ
  pub c2 : List ℕ
  pub c3 : List ℕ
  pub resistor : List ℕ

pub record Calibration : Type 0 where
  pub cal_gantry : GantryCalibration
  pub cal_temp : ThermistorCalibration

pub data CalibrationKey : Type 0 where
  cal_gantry_accel cal_gantry_vel_start cal_gantry_vel_home : CalibrationKey
  cal_temp_all_c1 cal_temp_all_c2 cal_temp_all_c3 cal_temp_all_resistor : CalibrationKey

abbrev pub key_code : CalibrationKey → ℕ
key_code cal_gantry_accel = 0
key_code cal_gantry_vel_start = 1
key_code cal_gantry_vel_home = 2
key_code cal_temp_all_c1 = 3
key_code cal_temp_all_c2 = 4
key_code cal_temp_all_c3 = 5
key_code cal_temp_all_resistor = 6
