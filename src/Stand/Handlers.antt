-- ===== src/Stand/Handlers.antt =====
-- mPMTTestStand.cpp: the handlers of messages, `execute` and `setup`.
use mpmt_test_stand.Prelude.{ℕ, zero, suc, Bool, Option, none, some, ◌==◌, if◌then◌else◌}
use mpmt_test_stand.Shared.{
  status_idle, AxisId, AxisResult, axis_err_invalid, MoveMsgData, msg_id_home, msg_id_move,
  msg_id_stop, msg_id_get_status, msg_id_get_position, msg_id_get_axis_state, msg_id_get_temp,
  msg_id_calibrate,
}
use mpmt_test_stand.Thermistor.{Doubles, Board, ThermistorArrayIo, scaled}
use mpmt_test_stand.Thermistor
use mpmt_test_stand.Serial.{is_ok, msg_id_echo}
use mpmt_test_stand.Serial.Device.{SerialDevice}
use mpmt_test_stand.Serial.Exec.{Exec, out_of_fuel, pure, gets, modify, ◌>>=◌, on_device}
use mpmt_test_stand.Serial.Comm
use mpmt_test_stand.Serial.Controller
use mpmt_test_stand.Stand.{
  Stand, Fate, get_axis, with_status, on_comm, handle_home_a, handle_stop, update_status,
  begin_move, with_calibration, setup_axes, carries_on, null_axis,
}

-- `dev` and `board` are the hardware, `big_endian` the byte order of the controller, `mck` the frequency
-- of its master clock; `rounds` and `bytes` are the fuel of the serial loops.
module _ {D F : Type 0} (dev : SerialDevice D) (board : Board D) (fl : Doubles F)
    (big_endian : Bool) (mck rounds bytes : ℕ) where
  unfoldable pub handle_echo : Exec (Stand D) Fate
  handle_echo = on_comm (Comm.recv_echo dev rounds bytes) >>= λ _. pure carries_on

  unfoldable pub reply_axis : AxisResult → Exec (Stand D) Fate
  reply_axis res = on_comm (Controller.axis_result dev rounds bytes res) >>= λ _. pure carries_on

  unfoldable pub move_axis : MoveMsgData → Option AxisId → Exec (Stand D) Fate
  unfolding reply_axis
  move_axis move none = pure null_axis
  move_axis move (some id) = (λ s. some (begin_move mck move id s)) >>= λ res. reply_axis res

  unfoldable pub handle_received_move : Option MoveMsgData → Exec (Stand D) Fate
  unfolding move_axis
  handle_received_move none = reply_axis axis_err_invalid
  handle_received_move (some move) = move_axis move (get_axis move.axis)

  unfoldable pub handle_move : Exec (Stand D) Fate
  unfolding handle_received_move
  handle_move = gets (λ s. Controller.recv_move s.comm.received_msg) >>= handle_received_move

  unfoldable pub handle_get_status : Exec (Stand D) Fate
  handle_get_status = gets (λ s. s.status) >>= λ status.
      on_comm (Controller.status dev rounds bytes status) >>= λ _. pure carries_on

  unfoldable pub handle_get_position : Exec (Stand D) Fate
  handle_get_position = gets (λ s. s.x.state.encoder_current) >>= λ x_counts.
      gets (λ s. s.y.state.encoder_current) >>= λ y_counts.
      on_comm (Controller.position dev rounds bytes x_counts y_counts) >>= λ _. pure carries_on

  unfoldable pub handle_get_temp : Exec (Stand D) Fate
  handle_get_temp = gets (λ s. s.conf.io_temp) >>= λ io. gets (λ s. s.cal.cal_temp) >>= λ cal.
      on_comm (on_device (Thermistor.read_temp_data fl board io cal)) >>= λ t.
      on_comm (
        Controller.temp dev rounds bytes (scaled fl t.temp_ambient) (scaled fl t.temp_motor_x)
          (scaled fl t.temp_motor_y) (scaled fl t.temp_mpmt) (scaled fl t.temp_optical))
      >>= λ _. pure carries_on

  unfoldable pub handle_calibrate : Exec (Stand D) Fate
  handle_calibrate =
      modify
        (λ s. with_calibration (Controller.recv_calibrate big_endian s.comm.received_msg s.cal) s)
      >>= λ _. pure carries_on

  -- The `switch` on the identifier of a message; handle_get_axis_state is empty.
  unfoldable pub dispatch : ℕ → Exec (Stand D) Fate
  unfolding handle_echo handle_move handle_get_status handle_get_position handle_get_temp
      handle_calibrate
  dispatch id =
      if id == msg_id_echo
      then handle_echo
      else if id == msg_id_home
      then modify (handle_home_a mck) >>= (λ _. pure carries_on)
      else if id == msg_id_move
      then handle_move
      else if id == msg_id_stop
      then modify handle_stop >>= (λ _. pure carries_on)
      else if id == msg_id_get_status
      then handle_get_status
      else if id == msg_id_get_position
      then handle_get_position
      else if id == msg_id_get_axis_state
      then pure carries_on
      else if id == msg_id_get_temp
      then handle_get_temp
      else if id == msg_id_calibrate
      then handle_calibrate
      else pure carries_on

  -- The second half of `execute`: poll, and handle a message that is complete.
  unfoldable pub serve : Exec (Stand D) Fate
  unfolding dispatch
  serve = on_comm (Comm.check_for_message dev rounds bytes) >>= λ res.
      if is_ok res then (gets (λ s. s.comm.received_msg.id) >>= dispatch) else pure carries_on

  unfoldable pub execute : Exec (Stand D) Fate
  unfolding serve
  execute = modify (update_status mck) >>= λ _. serve

  -- The loop of `setup`: ping the host until it answers, at most `pings` times.
  unfoldable pub wait_for_host : ℕ → Exec (Stand D) (Unit {0})
  wait_for_host zero = out_of_fuel
  wait_for_host (suc pings) = on_comm (Comm.ping dev rounds bytes) >>= λ res.
      if is_ok res
      then pure tt
      else (on_comm (on_device (λ d. (tt, board.delay 100 d))) >>= λ _. wait_for_host pings)

  -- `setup` after the axes are set up
  unfoldable pub connect : ℕ → Exec (Stand D) (Unit {0})
  unfolding wait_for_host
  connect pings = gets (λ s. s.conf) >>= λ conf.
      on_comm (on_device (λ d. (tt, Thermistor.setup board conf.io_temp d))) >>= λ _.
      on_comm (on_device (λ d. dev.ser_connect d conf.serial_comm_baud_rate)) >>= λ _.
      wait_for_host pings >>= λ _. modify (with_status status_idle)

  unfoldable pub setup : ℕ → Exec (Stand D) (Unit {0})
  unfolding connect
  setup pings = modify setup_axes >>= λ _. connect pings
