-- ===== src/Frontends/Helper.antt =====
-- feArduino/ArduinoHelper.cxx: the front end's calls of the controller, in millimetres. A message that
-- is only printed is left out. The diameter of the pulley is the calibration of feArduino.cxx.
pub mod Course
pub mod Moves
pub mod Goal
use mpmt_test_stand.Prelude.{
  ℕ, zero, suc, Bool, true, false, Option, none, some, List, [], ◌∷◌, ◌==◌, not, ◌&&◌, ◌||◌,
  if◌then◌else◌, sub32, neg32, int32_leb,
}
use mathlib.Core.Option
use mpmt_test_stand.Shared.{
  encoder_counts_per_rev, motor_steps_per_rev, msg_receive_timeout_ms, AxisId, axis_x, axis_y,
  AxisDirection, axis_dir_positive, axis_dir_negative, axis_result_code, axis_ok, PositionMsgData,
  Calibration, CalibrationKey, cal_gantry_accel, cal_gantry_vel_start, cal_gantry_vel_home,
  cal_temp_all_c1, cal_temp_all_c2, cal_temp_all_c3, cal_temp_all_resistor,
}
use mpmt_test_stand.Serial.{SerialResult, serial_ok, msg_id_ping}
use mpmt_test_stand.Serial.Device.{SerialDevice}
use mpmt_test_stand.Serial.Exec.{
  TestStandComm, Exec, out_of_fuel, pure, gets, modify, on_device, ◌>>=◌,
}
use mpmt_test_stand.Serial.Codec.{word_bytes}
use mpmt_test_stand.Serial.Comm
use mpmt_test_stand.Serial.Host
use mpmt_test_stand.Frontends.{Arith}

-- displacement, distance: bit patterns of int32_t
unfoldable pub get_direction : ℕ → AxisDirection
get_direction displacement =
    if not (int32_leb 0 displacement) then axis_dir_negative else axis_dir_positive

-- `abs` of the C library
unfoldable pub abs32 : ℕ → ℕ
abs32 n = if not (int32_leb 0 n) then neg32 n else n

unfoldable pub handle_serial_result : SerialResult → Bool
handle_serial_result serial_ok = true
handle_serial_result failed = false

unfoldable pub handle_axis_result : ℕ → Bool
handle_axis_result res = res == axis_result_code axis_ok

-- handle_serial_result && handle_axis_result, on what `move` gives
unfoldable pub handle_move_result : SerialResult × Option ℕ → Bool
unfolding handle_serial_result handle_axis_result
handle_move_result (res, some axis_res) = handle_serial_result res && handle_axis_result axis_res
handle_move_result (res, none) = false

module _ {F G : Type 0} (fl : Arith F G) where
  -- A constant of the source.
  abbrev literal : ℕ → F
  literal tenths = fl.narrow (fl.decimal tenths 1)

  -- dest_mm and vel_mm_s are arrays of an x and a y.
  unfoldable pub validate_move_params : F × F → F × F → Bool
  validate_move_params dest_mm vel_mm_s =
      if fl.lt dest_mm.0 (literal 0) || fl.lt (literal 12000) dest_mm.0
      then false
      else if fl.lt dest_mm.1 (literal 0) || fl.lt (literal 12000) dest_mm.1
      then false
      else if fl.lt vel_mm_s.0 (literal 0)
          || fl.lt (literal 500) vel_mm_s.0
          || fl.lt vel_mm_s.1 (literal 0)
          || fl.lt (literal 500) vel_mm_s.1
      then false
      else true

  -- The first argument is gCalGantryPulleyDia.
  unfoldable pub mm_per_rev : F → F
  mm_per_rev pulley_dia = fl.narrow (
      fl.mul_double (fl.mul_double (fl.decimal 20 1) fl.m_pi)
        (fl.div_double (fl.widen pulley_dia) (fl.decimal 20 1)))

  unfoldable pub mm_per_count : F → F
  unfolding mm_per_rev
  mm_per_count pulley_dia = fl.div (mm_per_rev pulley_dia) (fl.of_int encoder_counts_per_rev)

  unfoldable pub mm_per_step : F → F
  unfolding mm_per_rev
  mm_per_step pulley_dia = fl.div (mm_per_rev pulley_dia) (fl.of_int motor_steps_per_rev)

  unfoldable pub mm_to_cts : F → F → ℕ
  unfolding mm_per_count
  mm_to_cts pulley_dia val_mm = fl.round_int32 (fl.div val_mm (mm_per_count pulley_dia))

  unfoldable pub cts_to_mm : F → ℕ → F
  unfolding mm_per_count
  cts_to_mm pulley_dia val_cts = fl.mul (fl.of_int val_cts) (mm_per_count pulley_dia)

  unfoldable pub mm_to_steps : F → F → ℕ
  unfolding mm_per_step
  mm_to_steps pulley_dia val_mm = fl.round_uint32 (fl.div val_mm (mm_per_step pulley_dia))

  unfoldable pub steps_to_mm : F → ℕ → F
  unfolding mm_per_step
  steps_to_mm pulley_dia val_steps = fl.mul (fl.of_uint val_steps) (mm_per_step pulley_dia)

-- A SerialResult as a condition: SERIAL_OK is 0.
unfoldable pub is_nonzero : SerialResult → Bool
is_nonzero serial_ok = false
is_nonzero failed = true

-- `none` where the function returns false and its output is not written
unfoldable pub reply_of : {A : Type 0} → SerialResult × Option A → Option A
reply_of (serial_ok, reply) = reply
reply_of (failed, reply) = none

-- The calls on the object `comm`.
module _ {D : Type 0} (dev : SerialDevice D) (rounds bytes : ℕ) where
  abbrev checked : Exec (TestStandComm D) SerialResult → Exec (TestStandComm D) Bool
  checked send = send >>= λ res. pure (handle_serial_result res)

  -- The wait for a first ping, on fuel.
  wait_for_ping : ℕ → Exec (TestStandComm D) (Unit {0})
  unfolding is_nonzero
  wait_for_ping zero = out_of_fuel
  wait_for_ping (suc polls) =
      let more = wait_for_ping polls in
      Comm.check_for_message dev rounds bytes >>= λ res. gets (λ c. c.received_msg.id) >>= λ id.
      if is_nonzero res && id == msg_id_ping then pure tt else more

  unfoldable pub arduino_connect : ℕ → ℕ → Exec (TestStandComm D) Bool
  unfolding wait_for_ping
  arduino_connect polls baud_rate = on_device (λ d. dev.ser_connect d baud_rate) >>= λ opened.
      if not opened
      then pure false
      else (modify (λ c. record c { device = dev.ser_flush c.device }) >>= λ _.
          wait_for_ping polls >>= λ _.
          modify (λ c. record c { device = dev.ser_flush c.device }) >>= λ _.
          checked (Comm.link_check dev rounds bytes msg_receive_timeout_ms))

  unfoldable pub arduino_disconnect : Exec (TestStandComm D) (Unit {0})
  arduino_disconnect = modify (λ c. record c { device = dev.ser_disconnect c.device })

  unfoldable pub arduino_run_home : Exec (TestStandComm D) Bool
  arduino_run_home = checked (Host.home dev rounds bytes)

  unfoldable pub arduino_stop : Exec (TestStandComm D) Bool
  arduino_stop = checked (Host.stop dev rounds bytes)

  unfoldable pub arduino_get_status : Exec (TestStandComm D) (Option ℕ)
  arduino_get_status =
      Host.get_status dev rounds bytes msg_receive_timeout_ms >>= λ reply. pure (reply_of reply)

  -- Scaled integers, before the division that gives doubles.
  unfoldable pub arduino_get_temp : Exec (TestStandComm D) (Option (List ℕ))
  arduino_get_temp =
      Host.get_temp dev rounds bytes msg_receive_timeout_ms >>= λ reply. pure (reply_of reply)

  -- The overload with a key, and the one with a Calibration, each value as its bytes in memory.
  abbrev calibrate_all : Bool → List (CalibrationKey × List ℕ) → Exec (TestStandComm D) Bool
  calibrate_all big_endian [] = pure true
  calibrate_all big_endian ((key, value) ∷ rest) =
      checked (Host.calibrate dev rounds bytes big_endian key value) >>= λ ok.
      if not ok then pure false else calibrate_all big_endian rest

  unfoldable pub arduino_calibrate : Bool → Calibration → Exec (TestStandComm D) Bool
  arduino_calibrate big_endian cal = calibrate_all big_endian (
      (cal_gantry_accel, word_bytes cal.cal_gantry.accel)
      ∷ (cal_gantry_vel_start, word_bytes cal.cal_gantry.vel_start)
      ∷ (cal_gantry_vel_home, word_bytes cal.cal_gantry.vel_home)
      ∷ (cal_temp_all_c1, cal.cal_temp.c1)
      ∷ (cal_temp_all_c2, cal.cal_temp.c2)
      ∷ (cal_temp_all_c3, cal.cal_temp.c3)
      ∷ (cal_temp_all_resistor, cal.cal_temp.resistor)
      ∷ [])

module _ {F G D : Type 0} (fl : Arith F G) (dev : SerialDevice D) (rounds bytes : ℕ) where
  unfoldable pub move_axis : F → AxisId → ℕ → F → F → Exec (TestStandComm D) Bool
  move_axis pulley_dia axis cur_pos_counts dest_mm vel_mm_s =
      let disp_counts = sub32 (mm_to_cts fl pulley_dia dest_mm) cur_pos_counts in
      Host.move dev rounds bytes axis (get_direction disp_counts)
        (mm_to_steps fl pulley_dia vel_mm_s) (abs32 disp_counts) msg_receive_timeout_ms
      >>= λ reply. pure (handle_move_result reply)

  -- The move after the current position was asked for.
  unfoldable pub move_from :
      F → F × F → F × F → Option PositionMsgData → Exec (TestStandComm D) Bool
  move_from pulley_dia dest_mm vel_mm_s none = pure false
  move_from pulley_dia dest_mm vel_mm_s (some cur) =
      move_axis pulley_dia axis_x cur.x_counts dest_mm.0 vel_mm_s.0 >>= λ x_success.
      move_axis pulley_dia axis_y cur.y_counts dest_mm.1 vel_mm_s.1 >>= λ y_success.
      pure (x_success && y_success)

  unfoldable pub arduino_move : F → F × F → F × F → Exec (TestStandComm D) Bool
  arduino_move pulley_dia dest_mm vel_mm_s =
      if not (validate_move_params fl dest_mm vel_mm_s)
      then pure false
      else (Host.get_position dev rounds bytes msg_receive_timeout_ms >>= λ reply.
          move_from pulley_dia dest_mm vel_mm_s (reply_of reply))

  unfoldable pub arduino_get_position : F → Exec (TestStandComm D) (Option (F × F))
  arduino_get_position pulley_dia =
      Host.get_position dev rounds bytes msg_receive_timeout_ms >>= λ reply. pure (
        Option.map
          (λ pos. (cts_to_mm fl pulley_dia pos.x_counts, cts_to_mm fl pulley_dia pos.y_counts))
          (reply_of reply))
