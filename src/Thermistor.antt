-- ===== src/Thermistor.antt =====
-- firmware/lib/TemperatureDAQ/src/Thermistor10k.cpp and ThermistorArray.cpp. Floating-point
-- arithmetic, the analog inputs and the pins are parameters.
use mpmt_test_stand.Prelude.{ℕ, zero, suc, List}
use mpmt_test_stand.Shared.{ThermistorCalibration}

-- The arithmetic of `double`, as the compiler and the C library provide it.
pub record Doubles (F : Type 0) : Type 0 where
  pub of_bytes : List ℕ → F
  pub of_int : ℕ → F
  -- a literal: the digits and how many of them stand behind the point
  pub decimal : ℕ → ℕ → F
  pub add : F → F → F
  pub sub : F → F → F
  pub mul : F → F → F
  pub div : F → F → F
  pub log : F → F
  pub pow : F → F → F
  -- `round`, converted to an int32_t (its bit pattern)
  pub round : F → ℕ
  -- the conversion to an int, which drops the fraction
  pub truncate : F → ℕ

-- What the Arduino core provides besides the serial port, on the same state of the hardware.
pub record Board (D : Type 0) : Type 0 where
  pub delay : ℕ → D → D
  pub analog_read_resolution : ℕ → D → D
  pub analog_read : ℕ → D → ℕ × D
  pub pin_mode_input : ℕ → D → D

pub record ThermistorArrayIo : Type 0 where
  pub pin_therm_amb : ℕ
  pub pin_therm_motor_x : ℕ
  pub pin_therm_motor_y : ℕ
  pub pin_therm_mpmt : ℕ
  pub pin_therm_optical : ℕ

pub record TempData (F : Type 0) : Type 0 where
  pub temp_ambient : F
  pub temp_motor_x : F
  pub temp_motor_y : F
  pub temp_mpmt : F
  pub temp_optical : F

unfoldable pub setup : {D : Type 0} → Board D → ThermistorArrayIo → D → D
setup board io d = board.pin_mode_input io.pin_therm_optical (
    board.pin_mode_input io.pin_therm_mpmt (
      board.pin_mode_input io.pin_therm_motor_y (
        board.pin_mode_input io.pin_therm_motor_x
          (board.pin_mode_input io.pin_therm_amb (board.analog_read_resolution 12 d)))))

module _ {F : Type 0} (fl : Doubles F) where
  pub convert_to_temp : ThermistorCalibration → ℕ → F
  convert_to_temp cal v_level =
      let v_ref = fl.decimal 33 1 in
      let v_therm = fl.mul (fl.of_int v_level) (fl.div v_ref (fl.decimal 40950 1)) in
      let r_therm =
        fl.div (fl.of_bytes cal.resistor) (fl.sub (fl.div v_ref v_therm) (fl.decimal 10 1)) in
      let log_r = fl.log r_therm in
      let tk = fl.div (fl.decimal 10 1) (
        fl.add (fl.add (fl.of_bytes cal.c1) (fl.mul (fl.of_bytes cal.c2) log_r))
          (fl.mul (fl.of_bytes cal.c3) (fl.pow log_r (fl.decimal 30 1)))) in
      fl.sub tk (fl.decimal 27315 2)

  -- temp_data_scaler
  pub scaled : F → ℕ
  scaled t = fl.round (fl.mul t (fl.of_int 1000000))

  module _ {D : Type 0} (board : Board D) where
    pub read_temperature : ThermistorCalibration → ℕ → D → F × D
    unfolding convert_to_temp
    read_temperature cal pin d =
        let (v_level, d') = board.analog_read pin d in (convert_to_temp cal v_level, d')

    -- The loop of readAveragedTemperature, with so many samples left.
    pub sum_levels : ℕ → ℕ → F → D → F × D
    sum_levels pin zero sum d = (sum, d)
    sum_levels pin (suc samples) sum d =
        let (v_level, d') = board.analog_read pin d in
        sum_levels pin samples (fl.add sum (fl.of_int v_level)) (board.delay 10 d')

    pub read_averaged_temperature : ThermistorCalibration → ℕ → ℕ → D → F × D
    unfolding convert_to_temp sum_levels
    read_averaged_temperature cal pin num_samples d =
        let (sum, d') = sum_levels pin num_samples (fl.decimal 0 1) d in
        (convert_to_temp cal (fl.truncate (fl.div sum (fl.of_int num_samples))), d')

    pub read_temp_data : ThermistorArrayIo → ThermistorCalibration → D → TempData F × D
    unfolding read_temperature
    read_temp_data io cal d =
        let (ambient, d1) = read_temperature cal io.pin_therm_amb d in
        let (motor_x, d2) = read_temperature cal io.pin_therm_motor_x d1 in
        let (motor_y, d3) = read_temperature cal io.pin_therm_motor_y d2 in
        let (mpmt, d4) = read_temperature cal io.pin_therm_mpmt d3 in
        let (optical, d5) = read_temperature cal io.pin_therm_optical d4 in
        (
          record {
            temp_ambient = ambient;
            temp_motor_x = motor_x;
            temp_motor_y = motor_y;
            temp_mpmt = mpmt;
            temp_optical = optical;
          },
          d5,
        )
