-- ===== src/Stand/Calibrated.antt =====
-- What a CALIBRATE message of the host does to the calibration of the controller.
use mpmt_test_stand.Prelude.{
  ℕ, suc, ◌+◌, ◌<◌, ◌≡◌, refl, sym, ap, ◌∙◌, Bool, some, List, ◌∷◌, ◌++◌, arith, length, take, drop,
  take-append, append-take-drop, u8,
}
use mpmt_test_stand.Shared.{
  Calibration, CalibrationKey, cal_gantry_accel, cal_gantry_vel_start, cal_gantry_vel_home,
  cal_temp_all_c1, cal_temp_all_c2, cal_temp_all_c3, cal_temp_all_resistor, key_code,
  msg_id_calibrate,
}
use mpmt_test_stand.Thermistor.{Doubles, Board}
use mpmt_test_stand.Serial.{Message}
use mpmt_test_stand.Serial.Device.{SerialDevice, Buffer, IsBuffered, IsWriter}
use mpmt_test_stand.Serial.Exec.{TestStandComm}
use mpmt_test_stand.Serial.Codec.{word_at}
use mpmt_test_stand.Serial.Controller
use mpmt_test_stand.Serial.Host.{encode_value, calibrate_buf}
use mpmt_test_stand.Serial.Payloads.{
  stored, value_size, length-encode_value, recv_calibrate-encode_value,
}
use mpmt_test_stand.Serial.Transport.Takes.{IsTaking}
use mpmt_test_stand.Serial.Session.Delivery.{Accepted, Waits}
use mpmt_test_stand.Stand.{Stand, carries_on, with_comm, with_calibration}
use mpmt_test_stand.Stand.Handlers
use mpmt_test_stand.Stand.Remote.{message_lem, serve-dispatch}

-- The message of TestStandCommHost::calibrate, from a send buffer.
abbrev pub calibrate_msg : Bool → List ℕ → CalibrationKey → List ℕ → Message
calibrate_msg big buf key value =
    let encoded = encode_value big key value in
    record {
      id = msg_id_calibrate;
      length = u8 (length encoded + 1);
      payload = calibrate_buf buf key encoded;
    }

small_value : (key : CalibrationKey) → value_size key < 9
small_value cal_gantry_accel = omega arith
small_value cal_gantry_vel_start = omega arith
small_value cal_gantry_vel_home = omega arith
small_value cal_temp_all_c1 = omega arith
small_value cal_temp_all_c2 = omega arith
small_value cal_temp_all_c3 = omega arith
small_value cal_temp_all_resistor = omega arith

calibrate_length : (n size : ℕ) → n ≡ size → size < 9 → u8 (n + 1) ≡ suc size
calibrate_length n size e h = ground (arith, e)

-- What the controller reads from a received CALIBRATE.
calibrate_read :
    (m : Message) (big : Bool) (buf : List ℕ) (key : CalibrationKey) (value : List ℕ)
    (cal : Calibration)
    → length value ≡ value_size key
    → word_at 0 value < 4294967296
    → m.length ≡ (calibrate_msg big buf key value).length
    → take (calibrate_msg big buf key value).length m.payload
      ≡ take (calibrate_msg big buf key value).length (calibrate_msg big buf key value).payload
    → Controller.recv_calibrate big m cal ≡ some (stored key value cal)
calibrate_read m big buf key value cal hv hw same_length same_payload =
    let encoded = key_code key ∷ encode_value big key value in
    let n = value_size key in
    let size = length-encode_value big key value hv in
    let len : u8 (length (encode_value big key value) + 1) ≡ suc n =
      calibrate_length (length (encode_value big key value)) n size (small_value key) in
    let all : suc n ≡ length encoded = ap suc (sym size) in
    let behind = drop (suc n) m.payload in
    let front : take (suc n) m.payload ≡ encoded =
      ap (λ k. take k m.payload) (sym len)
      ∙ same_payload
      ∙ ap (λ k. take k (calibrate_msg big buf key value).payload) (len ∙ all)
      ∙ take-append encoded (drop (1 + length (encode_value big key value)) buf) in
    let payload : m.payload ≡ encoded ++ behind =
      sym (append-take-drop (suc n) m.payload) ∙ ap (λ p. p ++ behind) front in
    let message = message_lem m m.id (suc n) (encoded ++ behind) refl (same_length ∙ len) payload in
    ap (λ x. Controller.recv_calibrate big x cal) message
    ∙ recv_calibrate-encode_value big m.id n key value behind cal hv hw

module _ {D F : Type 0} (dev : SerialDevice D) (b : Buffer D) (reads : IsBuffered dev b)
    (writes : IsWriter dev b) (takes : IsTaking dev) (board : Board D) (fl : Doubles F)
    (big_endian : Bool) (mck rounds bytes : ℕ) where
  -- Let a receive buffer lose nothing and let the device take every write, and let host and
  -- controller have the same byte order. Let the receiver of the main object be at the start of a
  -- message, let the frame of the CALIBRATE message that the host builds for a key and a value
  -- with the size of that key, whose first word is a uint32_t, wait in its buffer, with more
  -- behind it, and let the poll have fuel for it. Then the poll of the loop takes the message,
  -- puts its ACK on the wire, and changes nothing of the main object besides the link but the
  -- field of the calibration that the key names, which becomes that value.
  pub calibrate_arrives :
      (buf : List ℕ) (key : CalibrationKey) (value rest : List ℕ) (s : Stand D)
      → length value ≡ value_size key
      → word_at 0 value < 4294967296
      → Waits b s.comm (calibrate_msg big_endian buf key value) rest bytes
      → (c : TestStandComm D) × Accepted b s.comm c (calibrate_msg big_endian buf key value) rest
        × (Handlers.serve dev board fl big_endian mck rounds bytes s
            ≡ some (carries_on, record (with_comm c s) { cal = stored key value s.cal }))
  unfolding Handlers.dispatch Handlers.handle_calibrate
  calibrate_arrives buf key value rest s hv hw w =
      let msg = calibrate_msg big_endian buf key value in
      let (c, got, run) =
        serve-dispatch dev b reads writes takes board fl big_endian mck rounds bytes msg rest s w in
      let read =
        calibrate_read c.received_msg big_endian buf key value s.cal hv hw got.same_length
          got.same_payload in
      (c, got, run ∙ ap (λ r. some (carries_on, with_calibration r (with_comm c s))) read)
