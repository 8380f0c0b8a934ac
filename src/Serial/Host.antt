-- ===== src/Serial/Host.antt =====
-- TestStandCommHost.cxx: the PC's side of the application layer. A request that fails leaves its
-- output as it was, so a result comes with `none`.
pub mod Replies
use mpmt_test_stand.Prelude.{
  ℕ, ◌+◌, Bool, Option, none, some, List, [], ◌∷◌, ◌++◌, get_or, take, drop, u8, length,
}
use mpmt_test_stand.Shared.{
  AxisId, axis_code, AxisDirection, direction_code, PositionMsgData, CalibrationKey, key_code,
  cal_gantry_accel, cal_gantry_vel_start, cal_gantry_vel_home, cal_temp_all_c1, cal_temp_all_c2,
  cal_temp_all_c3, cal_temp_all_resistor, msg_id_get_status, msg_id_home, msg_id_move, msg_id_stop,
  msg_id_get_position, msg_id_get_axis_state, msg_id_get_temp, msg_id_calibrate, msg_id_status,
  msg_id_position, msg_id_axis_state, msg_id_temp, msg_id_axis_result,
}
use mpmt_test_stand.Serial.{SerialResult, serial_ok}
use mpmt_test_stand.Serial.Device.{SerialDevice}
use mpmt_test_stand.Serial.Exec.{TestStandComm, Exec, pure, gets, modify, ◌>>=◌}
use mpmt_test_stand.Serial.Codec.{word_bytes, word_at, htonl, ntohl, htond}
use mpmt_test_stand.Serial.Session
use mpmt_test_stand.Serial.Comm

-- MoveMsgData as `move` builds it
unfoldable pub move_payload : AxisId → AxisDirection → ℕ → ℕ → List ℕ
move_payload axis dir vel_hold dist_counts =
    word_bytes (htonl vel_hold)
    ++ (word_bytes (htonl dist_counts) ++ u8 (axis_code axis) ∷ u8 (direction_code dir) ∷ [])

unfoldable pub position_of_payload : List ℕ → PositionMsgData
position_of_payload payload = record {
  x_counts = ntohl (word_at 0 payload);
  y_counts = ntohl (word_at 4 payload);
}

-- The `switch` of `calibrate`: what the key makes of the memory that `value` points to.
unfoldable pub encode_value : Bool → CalibrationKey → List ℕ → List ℕ
encode_value big_endian cal_gantry_accel value = word_bytes (htonl (word_at 0 value))
encode_value big_endian cal_gantry_vel_start value = word_bytes (htonl (word_at 0 value))
encode_value big_endian cal_gantry_vel_home value = word_bytes (htonl (word_at 0 value))
encode_value big_endian cal_temp_all_c1 value = htond big_endian (take 8 value)
encode_value big_endian cal_temp_all_c2 value = htond big_endian (take 8 value)
encode_value big_endian cal_temp_all_c3 value = htond big_endian (take 8 value)
encode_value big_endian cal_temp_all_resistor value = htond big_endian (take 8 value)

-- send_buf after the key and the value were copied to its front
abbrev pub calibrate_buf : List ℕ → CalibrationKey → List ℕ → List ℕ
calibrate_buf buf key value = (key_code key ∷ value) ++ drop (1 + length value) buf

module _ {D : Type 0} (dev : SerialDevice D) (rounds bytes : ℕ) where
  -- `if (res != SERIAL_OK) return res;` with nothing written to the output
  abbrev pub or_none :
      {A : Type 0}
      → SerialResult
      → Exec (TestStandComm D) (SerialResult × Option A)
      → Exec (TestStandComm D) (SerialResult × Option A)
  or_none serial_ok next = next
  or_none res next = pure (res, none)

  -- A request, the wait for its reply, and what is read from the reply.
  unfoldable pub request :
      {A : Type 0}
      → Exec (TestStandComm D) SerialResult
      → ℕ
      → ℕ
      → ℕ
      → (List ℕ → A)
      → Exec (TestStandComm D) (SerialResult × Option A)
  request send reply_id reply_length timeout_ms read = send >>= λ res. or_none res (
      Comm.recv_message dev rounds bytes reply_id reply_length timeout_ms >>= λ res'.
      or_none res' (gets (λ c. (serial_ok, some (read c.received_msg.payload)))))

  pub get_status : ℕ → Exec (TestStandComm D) (SerialResult × Option ℕ)
  unfolding request
  get_status timeout_ms =
      request (Comm.send_basic_msg dev rounds bytes msg_id_get_status) msg_id_status 1 timeout_ms
        (λ payload. get_or payload 0 0)

  pub home : Exec (TestStandComm D) SerialResult
  home = Comm.send_basic_msg dev rounds bytes msg_id_home

  pub stop : Exec (TestStandComm D) SerialResult
  stop = Comm.send_basic_msg dev rounds bytes msg_id_stop

  unfoldable pub move :
      AxisId → AxisDirection → ℕ → ℕ → ℕ → Exec (TestStandComm D) (SerialResult × Option ℕ)
  unfolding request
  move axis dir vel_hold dist_counts timeout_ms =
      request
        (Session.send_message dev rounds bytes (record {
          id = msg_id_move;
          length = 10;
          payload = move_payload axis dir vel_hold dist_counts;
        }))
        msg_id_axis_result 1 timeout_ms (λ payload. get_or payload 0 0)

  pub get_position : ℕ → Exec (TestStandComm D) (SerialResult × Option PositionMsgData)
  unfolding request
  get_position timeout_ms =
      request (Comm.send_basic_msg dev rounds bytes msg_id_get_position) msg_id_position 8
        timeout_ms position_of_payload

  -- The scaled temperatures, before the division that gives doubles.
  pub get_temp : ℕ → Exec (TestStandComm D) (SerialResult × Option (List ℕ))
  unfolding request
  get_temp timeout_ms =
      request (Comm.send_basic_msg dev rounds bytes msg_id_get_temp) msg_id_temp 20 timeout_ms
        λ payload.
          ntohl (word_at 0 payload)
          ∷ ntohl (word_at 4 payload)
          ∷ ntohl (word_at 8 payload)
          ∷ ntohl (word_at 12 payload)
          ∷ ntohl (word_at 16 payload)
          ∷ []

  pub get_axis_state : ℕ → Exec (TestStandComm D) (SerialResult × Option (List ℕ))
  unfolding request
  get_axis_state timeout_ms =
      request (Comm.send_basic_msg dev rounds bytes msg_id_get_axis_state) msg_id_axis_state 6
        timeout_ms (take 6)

  pub calibrate : Bool → CalibrationKey → List ℕ → Exec (TestStandComm D) SerialResult
  calibrate big_endian key value =
      let encoded = encode_value big_endian key value in
      modify (λ c. record c { send_buf = calibrate_buf c.send_buf key encoded }) >>= λ _.
      gets (λ c. c.send_buf) >>= λ buf.
      Session.send_message dev rounds bytes
        (record { id = msg_id_calibrate; length = u8 (length encoded + 1); payload = buf })
