-- ===== src/Stand/Loop.antt =====
-- The firmware's loop: `setup`, and then passes of `execute` with interrupts of the axes between its
-- two halves. An interrupt inside of a handler is not modelled.
use mpmt_test_stand.Prelude.{ℕ, Bool, Option, none, some, ◌==◌}
use mpmt_test_stand.Shared.{
  AxisId, MoveMsgData, Calibration, msg_id_home, msg_id_move, msg_id_stop, msg_id_get_status,
  msg_id_get_position, msg_id_get_axis_state, msg_id_get_temp, msg_id_calibrate,
}
use mpmt_test_stand.Thermistor.{Doubles, Board, scaled}
use mpmt_test_stand.Thermistor
use mpmt_test_stand.Serial.{is_ok, msg_id_echo}
use mpmt_test_stand.Serial.Device.{SerialDevice}
use mpmt_test_stand.Serial.Exec.{TestStandComm, Exec, pure, gets, modify, ◌>>=◌, on_device}
use mpmt_test_stand.Serial.Exec.Keeps.{
  After, Keeps, Keeps-pure, Keeps-gets, Keeps-if, Keeps-modify, Keeps-bind,
}
use mpmt_test_stand.Serial.Comm
use mpmt_test_stand.Serial.Controller
use mpmt_test_stand.Stand.{
  carries_on, null_axis, Stand, get_axis, with_comm, on_comm, handle_home_a, handle_stop,
  update_status, begin_move, with_calibration,
}
use mpmt_test_stand.Stand.Handlers
use mpmt_test_stand.Stand.Safety.{
  IsSafe, handle_stop-IsSafe, handle_home_a-IsSafe, update_status-IsSafe, begin_move-IsSafe,
}

module _ {D A : Type 0} {P : Stand D → Type 0}
    (quiet : (c : TestStandComm D) (s : Stand D) → P s → P (with_comm c s)) where
  After-on_comm :
      (r : Option (A × TestStandComm D)) (s : Stand D)
      → P s
      → After {A = A} P (elim r [ none ↦ none | some (a, c) ↦ some (a, with_comm c s) ])
  After-on_comm none s h = tt
  After-on_comm (some (a, c)) s h = quiet c s h

  -- What does not depend on the serial side is kept by it.
  pub Keeps-on_comm : (m : Exec (TestStandComm D) A) → Keeps P (on_comm m)
  Keeps-on_comm m = record { at = λ s h. After-on_comm (m s.comm) s h }

with_comm-IsSafe :
    {D : Type 0} → (c : TestStandComm D) (s : Stand D) → IsSafe s → IsSafe (with_comm c s)
with_comm-IsSafe c s h = record { safe_x = h.safe_x; safe_y = h.safe_y }

module _ {D F : Type 0} (dev : SerialDevice D) (board : Board D) (fl : Doubles F)
    (big_endian : Bool) (mck rounds bytes : ℕ) where
  reply-IsSafe :
      {A : Type 0}
      → (m : Exec (TestStandComm D) A) → Keeps IsSafe (on_comm m >>= λ _. pure carries_on)
  reply-IsSafe m =
      Keeps-bind _ (λ _. Keeps-pure carries_on) (on_comm m) (Keeps-on_comm with_comm-IsSafe m)

  move_axis-IsSafe :
      (move : MoveMsgData) (id : Option AxisId)
      → Keeps IsSafe (Handlers.move_axis dev board fl big_endian mck rounds bytes move id)
  unfolding Handlers.move_axis Handlers.reply_axis
  move_axis-IsSafe move none = Keeps-pure null_axis
  move_axis-IsSafe move (some id) =
      Keeps-bind _ (λ res. reply-IsSafe (Controller.axis_result dev rounds bytes res))
        (λ s. some (begin_move mck move id s)) (record { at = begin_move-IsSafe mck move id })

  handle_received_move-IsSafe :
      (move : Option MoveMsgData)
      → Keeps IsSafe (Handlers.handle_received_move dev board fl big_endian mck rounds bytes move)
  unfolding Handlers.handle_received_move Handlers.reply_axis
  handle_received_move-IsSafe none = reply-IsSafe (Controller.axis_result dev rounds bytes _)
  handle_received_move-IsSafe (some move) = move_axis-IsSafe move (get_axis move.axis)

  handle_move-IsSafe : Keeps IsSafe (Handlers.handle_move dev board fl big_endian mck rounds bytes)
  unfolding Handlers.handle_move
  handle_move-IsSafe =
      Keeps-bind _ handle_received_move-IsSafe
        (gets (λ s. Controller.recv_move s.comm.received_msg)) (Keeps-gets _)

  handle_get_status-IsSafe :
      Keeps IsSafe (Handlers.handle_get_status dev board fl big_endian mck rounds bytes)
  unfolding Handlers.handle_get_status
  handle_get_status-IsSafe =
      Keeps-bind _ (λ status. reply-IsSafe (Controller.status dev rounds bytes status))
        (gets (λ s. s.status)) (Keeps-gets _)

  handle_get_position-IsSafe :
      Keeps IsSafe (Handlers.handle_get_position dev board fl big_endian mck rounds bytes)
  unfolding Handlers.handle_get_position
  handle_get_position-IsSafe =
      Keeps-bind _
        (λ x.
          Keeps-bind _ (λ y. reply-IsSafe (Controller.position dev rounds bytes x y))
            (gets (λ s. s.y.state.encoder_current)) (Keeps-gets _))
        (gets (λ s. s.x.state.encoder_current)) (Keeps-gets _)

  handle_get_temp-IsSafe :
      Keeps IsSafe (Handlers.handle_get_temp dev board fl big_endian mck rounds bytes)
  unfolding Handlers.handle_get_temp
  handle_get_temp-IsSafe =
      Keeps-bind _
        (λ io.
          Keeps-bind _
            (λ cal.
              Keeps-bind _
                (λ t. reply-IsSafe (
                  Controller.temp dev rounds bytes (scaled fl t.temp_ambient)
                    (scaled fl t.temp_motor_x) (scaled fl t.temp_motor_y) (scaled fl t.temp_mpmt)
                    (scaled fl t.temp_optical)))
                (on_comm (on_device (Thermistor.read_temp_data fl board io cal)))
                (Keeps-on_comm with_comm-IsSafe
                  (on_device (Thermistor.read_temp_data fl board io cal))))
            (gets (λ s. s.cal.cal_temp)) (Keeps-gets _))
        (gets (λ s. s.conf.io_temp)) (Keeps-gets _)

  with_calibration-IsSafe :
      (cal : Option Calibration) (s : Stand D) → IsSafe s → IsSafe (with_calibration cal s)
  with_calibration-IsSafe none s h = h
  with_calibration-IsSafe (some cal) s h = record { safe_x = h.safe_x; safe_y = h.safe_y }

  then_carries_on :
      (f : Stand D → Stand D)
      → ((s : Stand D) → IsSafe s → IsSafe (f s))
      → Keeps IsSafe (modify f >>= λ _. pure carries_on)
  then_carries_on f h = Keeps-bind _ (λ _. Keeps-pure carries_on) (modify f) (Keeps-modify f h)

  dispatch-IsSafe :
      (id : ℕ) → Keeps IsSafe (Handlers.dispatch dev board fl big_endian mck rounds bytes id)
  unfolding Handlers.dispatch Handlers.handle_echo Handlers.handle_calibrate
  dispatch-IsSafe id =
      Keeps-if (id == msg_id_echo) _ _ (reply-IsSafe (Comm.recv_echo dev rounds bytes)) (
        Keeps-if (id == msg_id_home) _ _
          (then_carries_on (handle_home_a mck) (handle_home_a-IsSafe mck))
          (Keeps-if (id == msg_id_move) _ _ handle_move-IsSafe (
            Keeps-if (id == msg_id_stop) _ _ (then_carries_on handle_stop handle_stop-IsSafe) (
              Keeps-if (id == msg_id_get_status) _ _ handle_get_status-IsSafe (
                Keeps-if (id == msg_id_get_position) _ _ handle_get_position-IsSafe (
                  Keeps-if (id == msg_id_get_axis_state) _ _ (Keeps-pure carries_on) (
                    Keeps-if (id == msg_id_get_temp) _ _ handle_get_temp-IsSafe (
                      Keeps-if (id == msg_id_calibrate) _ _
                        (then_carries_on
                          (λ s.
                            with_calibration
                              (Controller.recv_calibrate big_endian s.comm.received_msg s.cal) s)
                          (λ s. with_calibration-IsSafe _ s))
                        (Keeps-pure carries_on)))))))))

  pub serve-IsSafe : Keeps IsSafe (Handlers.serve dev board fl big_endian mck rounds bytes)
  unfolding Handlers.serve
  serve-IsSafe =
      Keeps-bind _
        (λ res.
          Keeps-if (is_ok res) _ _
            (Keeps-bind _ dispatch-IsSafe (gets (λ s. s.comm.received_msg.id)) (Keeps-gets _))
            (Keeps-pure carries_on))
        (on_comm (Comm.check_for_message dev rounds bytes))
        (Keeps-on_comm with_comm-IsSafe (Comm.check_for_message dev rounds bytes))

  pub execute-IsSafe : Keeps IsSafe (Handlers.execute dev board fl big_endian mck rounds bytes)
  unfolding Handlers.execute
  execute-IsSafe =
      Keeps-bind _ (λ _. serve-IsSafe) (modify (update_status mck))
        (Keeps-modify (update_status mck) (update_status-IsSafe mck))
