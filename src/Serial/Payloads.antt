-- ===== src/Serial/Payloads.antt =====
-- The payloads of the application layer: what one side builds, the other side reads.
use mpmt_test_stand.Prelude.{
  ℕ, suc, ◌<◌, ◌≡◌, refl, sym, ◌∙◌, ap, Bool, true, false, some, List, [], ◌∷◌, ◌++◌, arith, take,
  length, u8, if◌then◌else◌, ltb, length-take, take-append,
}
use mpmt_test_stand.Shared.{
  AxisId, axis_x, axis_y, axis_code, axis_dir_positive, axis_dir_negative, direction_code,
  cast_direction, MoveMsgData, Calibration, CalibrationKey, key_code, cal_gantry_accel,
  cal_gantry_vel_start, cal_gantry_vel_home, cal_temp_all_c1, cal_temp_all_c2, cal_temp_all_c3,
  cal_temp_all_resistor,
}
use mpmt_test_stand.Serial.Codec.{
  word_bytes, word_at, htonl, ntohl, htond, ntohd, ntohl-htonl, htonl-lt, word_at-word_bytes,
  ntohd-htond, length-htond,
}
use mpmt_test_stand.Serial.Controller.{
  recv_move, set_gantry, set_temp, extract, recv_calibrate, position_payload,
}
use mpmt_test_stand.Serial.Host.{move_payload, position_of_payload, encode_value}

word_at-htonl :
    (x : ℕ) (rest : List ℕ) → x < 4294967296 → ntohl (word_at 0 (word_bytes (htonl x) ++ rest)) ≡ x
word_at-htonl x rest h = ap ntohl (word_at-word_bytes (htonl x) rest (htonl-lt x)) ∙ ntohl-htonl x h

axis_byte : (axis : AxisId) → u8 (axis_code axis) ≡ axis_code axis
axis_byte axis_x = refl
axis_byte axis_y = refl

direction_byte :
    (backwards : Bool)
    → let dir = if backwards then axis_dir_negative else axis_dir_positive in
      cast_direction (u8 (direction_code dir)) ≡ dir
direction_byte true = refl
direction_byte false = refl

-- For a velocity and a distance that are uint32_t and one of the two directions, the controller
-- reads from the payload that the host builds for a move, whatever stands behind it in the buffer,
-- the velocity, the distance, the axis and the direction that the host was given.
pub recv_move-move_payload :
    (id : ℕ) (axis : AxisId) (backwards : Bool) (vel_hold dist_counts : ℕ) (rest : List ℕ)
    → vel_hold < 4294967296
    → dist_counts < 4294967296
    → let dir = if backwards then axis_dir_negative else axis_dir_positive in
      (move : MoveMsgData) × (recv_move (record {
        id = id;
        length = 10;
        payload = move_payload axis dir vel_hold dist_counts ++ rest;
      })
        ≡ some move)
      × (move.vel_hold ≡ vel_hold)
      × (move.dist_counts ≡ dist_counts)
      × (move.axis ≡ axis_code axis)
      × (cast_direction move.dir ≡ dir)
unfolding recv_move move_payload
recv_move-move_payload id axis backwards v d rest hv hd = (
  _,
  refl,
  word_at-htonl v [] hv,
  word_at-htonl d [] hd,
  axis_byte axis,
  direction_byte backwards,
)

-- The host reads from the payload that the controller builds for two positions, whatever stands
-- behind it in the buffer, those two positions as int32_t.
pub position_of_payload-position_payload :
    (x y : ℕ) (rest : List ℕ)
    → x < 4294967296
    → y < 4294967296
    → position_of_payload (position_payload x y ++ rest) ≡ record { x_counts = x; y_counts = y }
unfolding position_of_payload position_payload
position_of_payload-position_payload x y rest hx hy =
    cc (word_at-htonl x [] hx, word_at-htonl y [] hy)

-- What a calibration message is for: the value in the memory of the host becomes the value of the
-- field that the key names.
pub stored : CalibrationKey → List ℕ → Calibration → Calibration
stored cal_gantry_accel value cal = set_gantry cal (λ g. record g { accel = word_at 0 value })
stored cal_gantry_vel_start value cal =
    set_gantry cal (λ g. record g { vel_start = word_at 0 value })
stored cal_gantry_vel_home value cal = set_gantry cal (λ g. record g { vel_home = word_at 0 value })
stored cal_temp_all_c1 value cal = set_temp cal (λ t. record t { c1 = take 8 value })
stored cal_temp_all_c2 value cal = set_temp cal (λ t. record t { c2 = take 8 value })
stored cal_temp_all_c3 value cal = set_temp cal (λ t. record t { c3 = take 8 value })
stored cal_temp_all_resistor value cal = set_temp cal (λ t. record t { resistor = take 8 value })

-- The memory that the key's value takes: a uint32_t or a double.
abbrev pub value_size : CalibrationKey → ℕ
value_size cal_gantry_accel = 4
value_size cal_gantry_vel_start = 4
value_size cal_gantry_vel_home = 4
value_size _ = 8

word_double :
    (big : Bool) (value rest : List ℕ)
    → length value ≡ 8
    → ntohd big (take 8 (htond big (take 8 value) ++ rest)) ≡ take 8 value
word_double big value rest n =
    let size : length (htond big (take 8 value)) ≡ 8 =
      length-htond big (take 8 value) ∙ length-take 8 value (omega arith) in
    ap (ntohd big) (
      ap (λ k. take k (htond big (take 8 value) ++ rest)) (sym size)
      ∙ take-append (htond big (take 8 value)) rest)
    ∙ ntohd-htond big (take 8 value)

recv_word :
    (value rest : List ℕ)
    → word_at 0 value < 4294967296
    → ntohl (word_at 1 (0 ∷ word_bytes (htonl (word_at 0 value)) ++ rest)) ≡ word_at 0 value
recv_word value rest h = word_at-htonl (word_at 0 value) [] h

extract-encode_value :
    (big : Bool) (key : CalibrationKey) (value rest : List ℕ) (cal : Calibration)
    → length value ≡ value_size key
    → word_at 0 value < 4294967296
    → extract big (key_code key) ((key_code key ∷ encode_value big key value) ++ rest) cal
      ≡ some (stored key value cal)
unfolding extract encode_value stored
extract-encode_value big cal_gantry_accel value rest cal l h =
    ap (λ w. some (set_gantry cal (λ g. record g { accel = w }))) (recv_word value rest h)
extract-encode_value big cal_gantry_vel_start value rest cal l h =
    ap (λ w. some (set_gantry cal (λ g. record g { vel_start = w }))) (recv_word value rest h)
extract-encode_value big cal_gantry_vel_home value rest cal l h =
    ap (λ w. some (set_gantry cal (λ g. record g { vel_home = w }))) (recv_word value rest h)
extract-encode_value big cal_temp_all_c1 value rest cal l h =
    ap (λ d. some (set_temp cal (λ t. record t { c1 = d }))) (word_double big value rest l)
extract-encode_value big cal_temp_all_c2 value rest cal l h =
    ap (λ d. some (set_temp cal (λ t. record t { c2 = d }))) (word_double big value rest l)
extract-encode_value big cal_temp_all_c3 value rest cal l h =
    ap (λ d. some (set_temp cal (λ t. record t { c3 = d }))) (word_double big value rest l)
extract-encode_value big cal_temp_all_resistor value rest cal l h =
    ap (λ d. some (set_temp cal (λ t. record t { resistor = d }))) (word_double big value rest l)

not_short : (n : ℕ) → ltb (suc n) 1 ≡ false
not_short n = ground arith

-- For a value with the size of its key, the controller reads from the payload that the host builds
-- for a calibration, whatever stands behind it in the buffer, exactly that value into the field
-- that the key names, and leaves the other fields alone.
pub recv_calibrate-encode_value :
    (big : Bool) (id n : ℕ) (key : CalibrationKey) (value rest : List ℕ) (cal : Calibration)
    → length value ≡ value_size key
    → word_at 0 value < 4294967296
    → recv_calibrate big
        (record {
          id = id;
          length = suc n;
          payload = (key_code key ∷ encode_value big key value) ++ rest;
        })
        cal
      ≡ some (stored key value cal)
unfolding recv_calibrate
recv_calibrate-encode_value big id n key value rest cal l h =
    rw (not_short n) (extract-encode_value big key value rest cal l h)

-- The host sends as many bytes of a value as the value has.
pub length-encode_value :
    (big : Bool) (key : CalibrationKey) (value : List ℕ)
    → length value ≡ value_size key
    → length (encode_value big key value) ≡ value_size key
unfolding encode_value
length-encode_value big cal_gantry_accel value l = refl
length-encode_value big cal_gantry_vel_start value l = refl
length-encode_value big cal_gantry_vel_home value l = refl
length-encode_value big cal_temp_all_c1 value l =
    length-htond big (take 8 value) ∙ length-take 8 value (omega arith)
length-encode_value big cal_temp_all_c2 value l =
    length-htond big (take 8 value) ∙ length-take 8 value (omega arith)
length-encode_value big cal_temp_all_c3 value l =
    length-htond big (take 8 value) ∙ length-take 8 value (omega arith)
length-encode_value big cal_temp_all_resistor value l =
    length-htond big (take 8 value) ∙ length-take 8 value (omega arith)
