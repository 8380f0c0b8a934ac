-- ===== src/Examples/Remote.antt =====
-- Commands of the host in the buffer of the firmware.
use mpmt_test_stand.Prelude.{ℕ, replicate, List, ◌≡◌, refl, some, ◌++◌, true, false, arith, [], ◌∷◌}
use mpmt_test_stand.Shared.{
  cal_gantry_accel, axis_y, axis_dir_negative, axis_err_ls_far, status_idle,
}
use mpmt_test_stand.Gantry.Hardware.{is_running}
use mpmt_test_stand.Serial.{Message, serial_ok}
use mpmt_test_stand.Serial.Host.{move_payload, encode_value}
use mpmt_test_stand.Serial.Codec.{word_bytes}
use mpmt_test_stand.Serial.Payloads.{stored}
use mpmt_test_stand.Stand.Calibrated.{calibrate_msg, calibrate_arrives}
use mpmt_test_stand.Serial.Host
use mpmt_test_stand.Serial.Host.Replies.{move_request, result_reply, move-replied}
use mpmt_test_stand.Serial.Session.{ack_msg}
use mpmt_test_stand.Serial.Transport
use mpmt_test_stand.Serial.Exec.{TestStandComm, pure, ◌>>=◌}
use mpmt_test_stand.Serial.Session
use mpmt_test_stand.Gantry.Axis.{start_axis}
use mpmt_test_stand.Serial.Transport.{reset}
use mpmt_test_stand.Serial.Transport.RoundTrip.{wire}
use mpmt_test_stand.Serial.Session.Delivery.{Accepted, Waits}
use mpmt_test_stand.Stand.{Stand, carries_on, with_comm, is_moving, on_comm}
use mpmt_test_stand.Stand.Handlers
use mpmt_test_stand.Stand.Orders.{named, ordered, underway, result_msg}
use mpmt_test_stand.Stand.Remote.{move_msg, stop_arrives, move_arrives}
use mpmt_test_stand.Examples.Wire.{
  Wire, wire_device, wire_buffer, wire_device-IsBuffered, wire_device-IsWriter,
}
use mpmt_test_stand.Examples.Helper.{host}
use mpmt_test_stand.Examples.Gantry.{mck}
use mpmt_test_stand.Examples.Stand.{whole, bench, stand_on}

abbrev backwards_on_y : Message
backwards_on_y = move_msg axis_y true 800 12500

abbrev asked : Stand Wire
asked = stand_on (wire backwards_on_y ++ 7 ∷ [])

asked-Waits : Waits wire_buffer asked.comm backwards_on_y (7 ∷ []) 30
unfolding move_payload reset
asked-Waits = record {
  before = refl;
  room = refl;
  fits = ground arith;
  whole = ground arith;
  waiting = refl;
  fuel = ground arith;
  not_ack = λ e. cc;
  not_nack = λ e. cc;
}

move_arrives_example :
    (c : TestStandComm Wire) × Accepted wire_buffer asked.comm c backwards_on_y (7 ∷ [])
    × (Handlers.serve wire_device bench whole false mck 1 30 asked ≡ (
        let (res, a) =
          start_axis mck (named axis_y (with_comm c asked)) (ordered true 800 12500 asked.cal) in
        (on_comm (Session.send_message wire_device 1 30 (result_msg res)) >>= λ _. pure carries_on)
          (underway res axis_y a (with_comm c asked))))
move_arrives_example =
    move_arrives wire_device wire_buffer wire_device-IsBuffered wire_device-IsWriter (λ d xs. refl)
      bench whole false mck 1 30 axis_y true 800 12500 (7 ∷ []) asked (ground arith) (ground arith)
      asked-Waits

abbrev stop_msg : Message
stop_msg = record { id = 0x43; length = 0; payload = [] }

abbrev stopping : Stand Wire
stopping = stand_on (wire stop_msg)

stopping-Waits : Waits wire_buffer stopping.comm stop_msg [] 30
unfolding reset
stopping-Waits = record {
  before = refl;
  room = refl;
  fits = ground arith;
  whole = ground arith;
  waiting = refl;
  fuel = ground arith;
  not_ack = λ e. cc;
  not_nack = λ e. cc;
}

stop_arrives_example :
    (t : Stand Wire) × (Handlers.serve wire_device bench whole false mck 1 30 stopping
      ≡ some (carries_on, t))
    × (t.status ≡ status_idle)
    × (is_moving t ≡ false)
    × (is_running stopping.x.io.step t.x.calls ≡ false)
    × (is_running stopping.x.accel t.x.calls ≡ false)
    × (is_running stopping.y.io.step t.y.calls ≡ false)
    × (is_running stopping.y.accel t.y.calls ≡ false)
stop_arrives_example =
    stop_arrives wire_device wire_buffer wire_device-IsBuffered wire_device-IsWriter (λ d xs. refl)
      bench whole false mck 1 30 stop_msg [] stopping refl stopping-Waits

-- The controller's answers to a move stand in the buffer of the host.
abbrev answering : TestStandComm Wire
answering = host (wire ack_msg ++ wire (result_reply axis_err_ls_far))

abbrev asking : TestStandComm Wire
asking = record answering {
  device = record answering.device { tx = wire (move_request axis_y axis_dir_negative 800 12500) };
}

move-replied_example :
    (c' : TestStandComm Wire) × (Host.move wire_device 1 60 axis_y axis_dir_negative 800 12500 250
        answering
      ≡ some ((serial_ok, some 3), c'))
    × (c'.transport ≡ reset)
    × (c'.device.tx ≡ wire (move_request axis_y axis_dir_negative 800 12500) ++ wire ack_msg)
unfolding reset Transport.send_message move_payload
move-replied_example =
    move-replied wire_device wire_buffer wire_device-IsBuffered wire_device-IsWriter (λ d xs. refl)
      0 60 axis_y axis_dir_negative 800 12500 250 0 axis_err_ls_far answering asking [] refl refl
      refl (λ d. omega arith) refl (ground arith)

-- The acceleration 70000 as the host has it in memory.
abbrev acceleration : List ℕ
acceleration = word_bytes 70000

abbrev buf : List ℕ
buf = replicate 255 1

abbrev calibrating : Stand Wire
calibrating = stand_on (wire (calibrate_msg false buf cal_gantry_accel acceleration) ++ 7 ∷ [])

calibrating-Waits :
    Waits wire_buffer calibrating.comm
      (calibrate_msg false buf cal_gantry_accel acceleration)
      (7 ∷ [])
      30
unfolding encode_value reset
calibrating-Waits = record {
  before = refl;
  room = refl;
  fits = ground arith;
  whole = ground arith;
  waiting = refl;
  fuel = ground arith;
  not_ack = λ e. cc;
  not_nack = λ e. cc;
}

calibrate_arrives_example :
    (c : TestStandComm Wire) × Accepted wire_buffer calibrating.comm c
      (calibrate_msg false buf cal_gantry_accel acceleration)
      (7 ∷ [])
    × (Handlers.serve wire_device bench whole false mck 1 30 calibrating
        ≡ some (
          carries_on,
          record (with_comm c calibrating) {
            cal = stored cal_gantry_accel acceleration calibrating.cal;
          },
        ))
calibrate_arrives_example =
    calibrate_arrives wire_device wire_buffer wire_device-IsBuffered wire_device-IsWriter
      (λ d xs. refl) bench whole false mck 1 30 buf cal_gantry_accel acceleration (7 ∷ [])
      calibrating refl (omega arith) calibrating-Waits
