-- ===== src/Frontends/Arduino.antt =====
-- feArduino/feArduino.cxx: the callbacks of the gantry's front end. What the database answers is an
-- argument of the callback that asks it; what they write to it is a log, in the order of the calls.
pub mod Callbacks
pub mod Respond
pub mod Answers
pub mod Start
use mpmt_test_stand.Prelude.{
  ℕ, Bool, true, false, Option, none, some, List, [], ◌∷◌, ◌++◌, ◌==◌, not, ◌&&◌, if◌then◌else◌,
}
use mpmt_test_stand.Shared.{Calibration}
use mpmt_test_stand.Serial.Device.{SerialDevice}
use mpmt_test_stand.Serial.Exec.{TestStandComm, Exec, pure, gets, modify, ◌>>=◌, ◌>>◌}
use mpmt_test_stand.Frontends.{Arith, FrontendStatus, success, fe_err_odb, fe_err_hw}
use mpmt_test_stand.Frontends.Helper.{
  mm_to_steps, steps_to_mm, steps_to_mm, arduino_move, arduino_run_home, arduino_stop,
  arduino_connect, arduino_disconnect, arduino_calibrate, arduino_get_status, arduino_get_position,
  arduino_get_temp,
}

-- The keys of the database that the front end links.
pub data OdbKey : Type 0 where
  odb_destination odb_velocity : OdbKey
  odb_pulley_dia odb_accel odb_vel_start odb_vel_home : OdbKey
  odb_temp_c1 odb_temp_c2 odb_temp_c3 odb_temp_resistor : OdbKey
  odb_update_cal odb_start_home odb_move_request : OdbKey

-- The status of db_get_value, db_find_key and db_open_record: is it DB_SUCCESS.
pub record OdbAnswer : Type 0 where
  pub got : Bool
  pub found : Bool
  pub opened : Bool

pub data OdbWrite : Type 0 where
  set_move_response : Bool → Bool → OdbWrite
  reset_move_request reset_start_home reset_update_calibration : OdbWrite

-- The globals. A double is its eight bytes.
pub record ArduinoSettings (F : Type 0) : Type 0 where
  pub pulley_dia : F
  pub accel : F
  pub vel_start : F
  pub vel_home : F
  pub temp_c1 : List ℕ
  pub temp_c2 : List ℕ
  pub temp_c3 : List ℕ
  pub temp_resistor : List ℕ
  pub is_update_requested : Bool
  pub is_home_requested : Bool
  pub is_move_requested : Bool

pub record ArduinoFrontend (F D : Type 0) : Type 0 where
  pub settings : ArduinoSettings F
  pub comm : TestStandComm D
  pub odb_writes : List OdbWrite

-- What move_request finds in the database: does clearing the response succeed, and the two arrays.
pub record MoveOdb (F : Type 0) : Type 0 where
  pub cleared : Bool
  pub destination : Option (F × F)
  pub velocity : Option (F × F)

pub record ArduinoEvent (F : Type 0) : Type 0 where
  pub status_bank : Option ℕ
  pub gantry_bank : Option (F × F)
  pub temp_bank : Option (List ℕ)

-- shared/DefaultCalibration.h, on what the compiler makes of a double literal: its digits and how many
-- of them stand behind the point.
unfoldable pub default_calibration : (ℕ → ℕ → List ℕ) → Calibration
default_calibration literal = record {
  cal_gantry = record { accel = 10; vel_start = 1; vel_home = 75 };
  cal_temp = record {
    c1 = literal 1127354682 12;
    c2 = literal 2343978227 13;
    c3 = literal 8674847738 17;
    resistor = literal 100000 1;
  };
}

-- The globals when the program starts.
unfoldable pub initial_settings : {F G : Type 0} → Arith F G → (ℕ → ℕ → List ℕ) → ArduinoSettings F
unfolding default_calibration
initial_settings fl literal =
    let cal = default_calibration literal in
    let pulley = fl.narrow (fl.decimal 170 1) in
    record {
      pulley_dia = pulley;
      accel = steps_to_mm fl pulley cal.cal_gantry.accel;
      vel_start = steps_to_mm fl pulley cal.cal_gantry.vel_start;
      vel_home = steps_to_mm fl pulley cal.cal_gantry.vel_home;
      temp_c1 = cal.cal_temp.c1;
      temp_c2 = cal.cal_temp.c2;
      temp_c3 = cal.cal_temp.c3;
      temp_resistor = cal.cal_temp.resistor;
      is_update_requested = false;
      is_home_requested = false;
      is_move_requested = false;
    }

-- What db_get_value copies from the database into a global.
unfoldable pub stored :
    {F : Type 0} → OdbKey → ArduinoSettings F → ArduinoSettings F → ArduinoSettings F
stored odb_destination odb s = s
stored odb_velocity odb s = s
stored odb_pulley_dia odb s = record s { pulley_dia = odb.pulley_dia }
stored odb_accel odb s = record s { accel = odb.accel }
stored odb_vel_start odb s = record s { vel_start = odb.vel_start }
stored odb_vel_home odb s = record s { vel_home = odb.vel_home }
stored odb_temp_c1 odb s = record s { temp_c1 = odb.temp_c1 }
stored odb_temp_c2 odb s = record s { temp_c2 = odb.temp_c2 }
stored odb_temp_c3 odb s = record s { temp_c3 = odb.temp_c3 }
stored odb_temp_resistor odb s = record s { temp_resistor = odb.temp_resistor }
stored odb_update_cal odb s = record s { is_update_requested = odb.is_update_requested }
stored odb_start_home odb s = record s { is_home_requested = odb.is_home_requested }
stored odb_move_request odb s = record s { is_move_requested = odb.is_move_requested }
