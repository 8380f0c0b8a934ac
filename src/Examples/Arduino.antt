-- ===== src/Examples/Arduino.antt =====
-- The callbacks of the gantry's front end, on a wire.
use mpmt_test_stand.Prelude.{ℕ, ◌≡◌, ◌⊎◌, ◌↔◌, refl, true, false, some, List, [], ◌∷◌, replicate}
use mpmt_test_stand.Frontends.Helper.{validate_move_params, arduino_move}
use mpmt_test_stand.Frontends.Arduino.{
  ArduinoFrontend, ArduinoSettings, MoveOdb, OdbWrite, set_move_response, reset_move_request,
}
use mpmt_test_stand.Frontends.Arduino.Callbacks.{move_request, answer_move, on_arduino, write_odb}
use mpmt_test_stand.Frontends.Arduino.Answers.{Answered, Dropped, Unasked, move_request-cases}
use mpmt_test_stand.Examples.Wire.{Wire, wire_device}
use mpmt_test_stand.Examples.Scan.{whole}
use mpmt_test_stand.Examples.Helper.{host}

abbrev eight : List ℕ
eight = replicate 8 0

abbrev settings : ArduinoSettings ℕ
settings = record {
  pulley_dia = 17;
  accel = 10;
  vel_start = 1;
  vel_home = 75;
  temp_c1 = eight;
  temp_c2 = eight;
  temp_c3 = eight;
  temp_resistor = eight;
  is_update_requested = false;
  is_home_requested = false;
  is_move_requested = true;
}

abbrev front : List OdbWrite → ArduinoFrontend ℕ Wire
front writes = record { settings = settings; comm = host []; odb_writes = writes }

-- A destination beyond the end of the rail.
abbrev beyond : MoveOdb ℕ
beyond = record { cleared = true; destination = some (13000, 210); velocity = some (5, 5) }

abbrev refused : List OdbWrite
refused = set_move_response false false ∷ set_move_response true false ∷ reset_move_request ∷ []

beyond_run : move_request whole wire_device 3 30 beyond (front []) ≡ some (tt, front refused)
unfolding move_request answer_move on_arduino write_odb arduino_move validate_move_params
beyond_run = refl

move_request-cases_example :
    (move_request whole wire_device 3 30 beyond (front []) ≡ some (tt, front refused)) ↔ (
      Unasked whole wire_device 3 30 (front []) (front refused)
      ⊎ Dropped whole wire_device 3 30 beyond (front []) (front refused)
      ⊎ Answered whole wire_device 3 30 beyond (front []) (front refused))
move_request-cases_example =
    move_request-cases whole wire_device 3 30 beyond (front []) (front refused)
