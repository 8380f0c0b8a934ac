-- ===== src/Frontends/Arduino/Callbacks.antt =====
-- The callbacks of feArduino.cxx and what they share.
use mpmt_test_stand.Prelude.{
  ℕ, Bool, true, false, Option, none, some, List, [], ◌∷◌, ◌++◌, ◌==◌, not, ◌&&◌, if◌then◌else◌,
}
use mpmt_test_stand.Shared.{Calibration}
use mpmt_test_stand.Serial.Device.{SerialDevice}
use mpmt_test_stand.Serial.Exec.{TestStandComm, Exec, pure, gets, modify, ◌>>=◌, ◌>>◌}
use mpmt_test_stand.Frontends.{Arith, FrontendStatus, success, fe_err_odb, fe_err_hw}
use mpmt_test_stand.Frontends.Helper.{
  mm_to_steps, arduino_move, arduino_run_home, arduino_stop, arduino_connect, arduino_disconnect,
  arduino_calibrate, arduino_get_status, arduino_get_position, arduino_get_temp,
}
use mpmt_test_stand.Frontends.Arduino.{
  OdbKey, odb_destination, odb_velocity, odb_pulley_dia, odb_accel, odb_vel_start, odb_vel_home,
  odb_temp_c1, odb_temp_c2, odb_temp_c3, odb_temp_resistor, odb_update_cal, odb_start_home,
  odb_move_request, OdbAnswer, OdbWrite, set_move_response, reset_move_request, reset_start_home,
  reset_update_calibration, ArduinoSettings, ArduinoFrontend, MoveOdb, ArduinoEvent, stored,
}

module _ {F D : Type 0} where
  -- A call on the object `comm`, and a write to the database.
  unfoldable pub on_arduino : {A : Type 0} → Exec (TestStandComm D) A → Exec (ArduinoFrontend F D) A
  on_arduino m fe = elim (m fe.comm) [
    | none ↦ none
    | some (a, c) ↦ some (a, record fe { comm = c })
  ]

  unfoldable pub write_odb : OdbWrite → Exec (ArduinoFrontend F D) (Unit {0})
  write_odb w = modify (λ fe. record fe { odb_writes = fe.odb_writes ++ w ∷ [] })

  -- setup_odb_var: does it return DB_SUCCESS
  unfoldable pub setup_odb_var :
      ArduinoSettings F → (OdbKey → OdbAnswer) → OdbKey → Bool → Exec (ArduinoFrontend F D) Bool
  unfolding stored
  setup_odb_var odb answers key hotlink =
      if not (answers key).got
      then pure false
      else (modify (λ fe. record fe { settings = stored key odb fe.settings })
          >> pure (if hotlink then (answers key).found && (answers key).opened else true))

  -- A chain of setup_odb_var, which ends at the first failure.
  unfoldable pub setup_odb_vars :
      ArduinoSettings F
      → (OdbKey → OdbAnswer)
      → List (OdbKey × Bool)
      → Exec (ArduinoFrontend F D) Bool
  unfolding setup_odb_var
  setup_odb_vars odb answers [] = pure true
  setup_odb_vars odb answers ((key, hotlink) ∷ rest) =
      let more = setup_odb_vars odb answers rest in
      setup_odb_var odb answers key hotlink >>= λ ok. if ok then more else pure false

-- The variables before and after the calibration is sent, each with its hot-link flag.
abbrev pub settings_vars : List (OdbKey × Bool)
settings_vars =
    (odb_destination, false)
    ∷ (odb_velocity, false)
    ∷ (odb_pulley_dia, true)
    ∷ (odb_accel, true)
    ∷ (odb_vel_start, true)
    ∷ (odb_vel_home, true)
    ∷ (odb_temp_c1, true)
    ∷ (odb_temp_c2, true)
    ∷ (odb_temp_c3, true)
    ∷ (odb_temp_resistor, true)
    ∷ []

abbrev pub request_vars : List (OdbKey × Bool)
request_vars = (odb_update_cal, true) ∷ (odb_start_home, true) ∷ (odb_move_request, true) ∷ []

-- The calibration that update_calibration sends.
unfoldable pub calibration_of : {F G : Type 0} → Arith F G → ArduinoSettings F → Calibration
calibration_of fl s = record {
  cal_gantry = record {
    accel = mm_to_steps fl s.pulley_dia s.accel;
    vel_start = mm_to_steps fl s.pulley_dia s.vel_start;
    vel_home = mm_to_steps fl s.pulley_dia s.vel_home;
  };
  cal_temp = record { c1 = s.temp_c1; c2 = s.temp_c2; c3 = s.temp_c3; resistor = s.temp_resistor };
}

module _ {F G D : Type 0} (fl : Arith F G) (dev : SerialDevice D) (rounds bytes : ℕ) where
  -- update_calibration without arguments
  unfoldable pub send_calibration : Bool → Exec (ArduinoFrontend F D) Bool
  unfolding calibration_of on_arduino
  send_calibration big_endian = gets (λ fe. fe.settings) >>= λ s.
      on_arduino (arduino_calibrate dev rounds bytes big_endian (calibration_of fl s))

  unfoldable pub update_calibration : Bool → Exec (ArduinoFrontend F D) (Unit {0})
  unfolding send_calibration write_odb
  update_calibration big_endian = gets (λ fe. fe.settings.is_update_requested) >>= λ requested.
      if not requested
      then pure tt
      else (send_calibration big_endian >>= λ _. write_odb reset_update_calibration)

  -- move_request from the answers of the database on
  unfoldable pub answer_move :
      Option (F × F) → Option (F × F) → Exec (ArduinoFrontend F D) (Unit {0})
  unfolding on_arduino write_odb
  answer_move (some destination) (some velocity) =
      gets (λ fe. fe.settings.pulley_dia) >>= λ pulley_dia.
      on_arduino (arduino_move fl dev rounds bytes pulley_dia destination velocity)
      >>= λ move_success.
          write_odb (set_move_response true move_success) >> write_odb reset_move_request
  answer_move _ _ = pure tt

  unfoldable pub move_request : MoveOdb F → Exec (ArduinoFrontend F D) (Unit {0})
  unfolding answer_move write_odb
  move_request odb = gets (λ fe. fe.settings.is_move_requested) >>= λ requested.
      if not requested
      then pure tt
      else (write_odb (set_move_response false false)
          >> (if not odb.cleared then pure tt else answer_move odb.destination odb.velocity))

  unfoldable pub start_home : Exec (ArduinoFrontend F D) (Unit {0})
  unfolding on_arduino write_odb
  start_home = gets (λ fe. fe.settings.is_home_requested) >>= λ requested.
      if not requested
      then pure tt
      else (on_arduino (arduino_run_home dev rounds bytes) >>= λ _. write_odb reset_start_home)

  -- frontend_init, on the number of arguments, the fuel of the wait for a ping, the baud rate, and
  -- what the database answers
  unfoldable pub frontend_init :
      ℕ
      → ℕ
      → ℕ
      → Bool
      → Bool
      → ArduinoSettings F
      → (OdbKey → OdbAnswer)
      → Exec (ArduinoFrontend F D) FrontendStatus
  unfolding on_arduino setup_odb_vars send_calibration
  frontend_init argc polls baud_rate connected big_endian odb answers =
      if not (argc == 2)
      then pure fe_err_hw
      else (on_arduino (arduino_connect dev rounds bytes polls baud_rate) >>= λ linked.
          if not linked
          then pure fe_err_hw
          else if not connected
          then pure fe_err_odb
          else (setup_odb_vars odb answers settings_vars >>= λ read.
              if not read
              then pure fe_err_odb
              else (send_calibration big_endian >>= λ _.
                  setup_odb_vars odb answers request_vars >>= λ hot.
                  pure (if hot then success else fe_err_odb))))

  unfoldable pub frontend_exit : Exec (ArduinoFrontend F D) FrontendStatus
  unfolding on_arduino
  frontend_exit = on_arduino (arduino_stop dev rounds bytes) >>= λ _.
      on_arduino (arduino_disconnect dev rounds bytes) >>= λ _. pure success

  unfoldable pub end_of_run : Exec (ArduinoFrontend F D) FrontendStatus
  unfolding on_arduino
  end_of_run = on_arduino (arduino_stop dev rounds bytes) >>= λ _. pure success

  -- A bank is there if its query succeeded.
  unfoldable pub read_arduino_state : Exec (ArduinoFrontend F D) (ArduinoEvent F)
  unfolding on_arduino
  read_arduino_state = gets (λ fe. fe.settings.pulley_dia) >>= λ pulley_dia.
      on_arduino (arduino_get_status dev rounds bytes) >>= λ status.
      on_arduino (arduino_get_position fl dev rounds bytes pulley_dia) >>= λ position.
      on_arduino (arduino_get_temp dev rounds bytes) >>= λ temps.
      pure (record { status_bank = status; gantry_bank = position; temp_bank = temps })
