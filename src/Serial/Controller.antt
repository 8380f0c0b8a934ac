-- ===== src/Serial/Controller.antt =====
-- TestStandCommController.cxx: the firmware's side of the application layer.
use mpmt_test_stand.Prelude.{
  ℕ, ◌+◌, ◌-◌, Bool, Option, none, some, List, [], ◌∷◌, ◌++◌, ◌==◌, ltb, if◌then◌else◌, get_or,
  take, drop, length, u8,
}
use mpmt_test_stand.Shared.{
  Status, status_code, AxisResult, axis_result_code, MoveMsgData, Calibration, GantryCalibration,
  ThermistorCalibration, msg_id_log, msg_id_status, msg_id_position, msg_id_temp,
  msg_id_axis_result,
}
use mpmt_test_stand.Serial.{Message, msg_data_length_max, SerialResult}
use mpmt_test_stand.Serial.Device.{SerialDevice}
use mpmt_test_stand.Serial.Exec.{TestStandComm, Exec, gets, modify, ◌>>=◌}
use mpmt_test_stand.Serial.Codec.{word_bytes, word_at, htonl, ntohl, ntohd}
use mpmt_test_stand.Serial.Session

-- sizeof(MoveMsgData): the struct is packed
abbrev pub move_msg_size : ℕ
move_msg_size = 10

-- The buffer after vsnprintf(send_buf + 1, n, ...): at most n - 1 bytes of the text, and a 0.
abbrev pub print_into : List ℕ → ℕ → List ℕ → List ℕ
print_into buf n text =
    let printed = take (n - 1) text ++ 0 ∷ [] in
    take 1 buf ++ (printed ++ drop (1 + length printed) buf)

-- memcpy from the buffer and the byte order fixed up
pub move_of_payload : List ℕ → MoveMsgData
move_of_payload payload = record {
  vel_hold = ntohl (word_at 0 payload);
  dist_counts = ntohl (word_at 4 payload);
  axis = get_or payload 8 0;
  dir = get_or payload 9 0;
}

-- recv_move, on the message received last; `none` where it returns false
unfoldable pub recv_move : Message → Option MoveMsgData
unfolding move_of_payload
recv_move msg = if msg.length == move_msg_size then some (move_of_payload msg.payload) else none

abbrev pub set_gantry : Calibration → (GantryCalibration → GantryCalibration) → Calibration
set_gantry cal f = record cal { cal_gantry = f cal.cal_gantry }

abbrev pub set_temp : Calibration → (ThermistorCalibration → ThermistorCalibration) → Calibration
set_temp cal f = record cal { cal_temp = f cal.cal_temp }

-- The `switch` of recv_calibrate: EXTRACT copies as many bytes as the field has, from data[1] on.
unfoldable pub extract : Bool → ℕ → List ℕ → Calibration → Option Calibration
extract big_endian key payload cal =
    let word = ntohl (word_at 1 payload) in
    let double = ntohd big_endian (take 8 (drop 1 payload)) in
    if key == 0
    then some (set_gantry cal (λ g. record g { accel = word }))
    else if key == 1
    then some (set_gantry cal (λ g. record g { vel_start = word }))
    else if key == 2
    then some (set_gantry cal (λ g. record g { vel_home = word }))
    else if key == 3
    then some (set_temp cal (λ t. record t { c1 = double }))
    else if key == 4
    then some (set_temp cal (λ t. record t { c2 = double }))
    else if key == 5
    then some (set_temp cal (λ t. record t { c3 = double }))
    else if key == 6
    then some (set_temp cal (λ t. record t { resistor = double }))
    else none

-- recv_calibrate: the updated calibration, `none` where it returns false and writes nothing
unfoldable pub recv_calibrate : Bool → Message → Calibration → Option Calibration
unfolding extract
recv_calibrate big_endian msg cal =
    if ltb msg.length 1 then none else extract big_endian (get_or msg.payload 0 0) msg.payload cal

-- PositionMsgData as `position` builds it
unfoldable pub position_payload : ℕ → ℕ → List ℕ
position_payload x_counts y_counts = word_bytes (htonl x_counts) ++ word_bytes (htonl y_counts)

module _ {D : Type 0} (dev : SerialDevice D) (rounds bytes : ℕ) where
  -- `text` is the whole formatted text; vsnprintf returns its length, whatever fitted.
  unfoldable pub log : ℕ → List ℕ → Exec (TestStandComm D) SerialResult
  log log_level text =
      modify (λ c. record c {
        send_buf = print_into (log_level ∷ drop 1 c.send_buf) (msg_data_length_max - 1) text;
      })
      >>= λ _. gets (λ c. c.send_buf) >>= λ buf.
          Session.send_message dev rounds bytes
            (record { id = msg_id_log; length = u8 (1 + u8 (length text) + 1); payload = buf })

  unfoldable pub status : Status → Exec (TestStandComm D) SerialResult
  status s =
      Session.send_message dev rounds bytes
        (record { id = msg_id_status; length = 1; payload = status_code s ∷ [] })

  unfoldable pub position : ℕ → ℕ → Exec (TestStandComm D) SerialResult
  position x_counts y_counts =
      Session.send_message dev rounds bytes
        (record { id = msg_id_position; length = 8; payload = position_payload x_counts y_counts })

  -- The five temperatures, each scaled by 10^6 and rounded to an int32_t (its bit pattern).
  unfoldable pub temp : ℕ → ℕ → ℕ → ℕ → ℕ → Exec (TestStandComm D) SerialResult
  temp ambient motor_x motor_y mpmt optical = Session.send_message dev rounds bytes (record {
    id = msg_id_temp;
    length = 20;
    payload =
        word_bytes (htonl ambient)
        ++ (word_bytes (htonl motor_x)
            ++ (word_bytes (htonl motor_y)
                ++ (word_bytes (htonl mpmt) ++ word_bytes (htonl optical))));
  })

  unfoldable pub axis_result : AxisResult → Exec (TestStandComm D) SerialResult
  axis_result result =
      Session.send_message dev rounds bytes
        (record { id = msg_id_axis_result; length = 1; payload = axis_result_code result ∷ [] })
