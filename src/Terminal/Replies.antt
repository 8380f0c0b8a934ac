-- ===== src/Terminal/Replies.antt =====
-- What the terminal prints for the reply to a request.
use Prim.Native.String.{String}
use mpmt_test_stand.Prelude.{ℕ, Option, none, some, List, [], ◌∷◌, ◌==◌, if◌then◌else◌, get_or}
use mpmt_test_stand.Shared.{PositionMsgData}
use mpmt_test_stand.Serial.{SerialResult, serial_ok}
use mpmt_test_stand.Terminal.{Printed, printf, puts, int32, bool, result, temperature}

-- What is printed for a reply.
unfoldable pub status_line : ℕ → Printed
status_line status =
    if status == 0
    then puts "Status: IDLE"
    else if status == 2
    then puts "Status: MOVING"
    else if status == 1
    then puts "Status: HOMING"
    else if status == 3
    then puts "Status: FAULT"
    else puts "ERR: Invalid status"

unfoldable pub axis_result_line : ℕ → Printed
axis_result_line axis_res =
    if axis_res == 0
    then puts "AXIS_OK"
    else if axis_res == 1
    then puts "AXIS_ERR_ALREADY_MOVING"
    else if axis_res == 2
    then puts "AXIS_ERR_LS_HOME"
    else if axis_res == 3
    then puts "AXIS_ERR_LS_FAR"
    else if axis_res == 4
    then puts "AXIS_ERR_INVALID"
    else puts "ERR: Invalid AxisResult"

unfoldable pub position_lines : PositionMsgData → List Printed
position_lines position =
    printf "Position (counts): (%d, %d)\n" (int32 position.x_counts ∷ int32 position.y_counts ∷ [])
    ∷ []

unfoldable pub temp_lines : List ℕ → List Printed
temp_lines temps =
    printf "Ambient : %12f deg C\n" (temperature (get_or temps 0 0) ∷ [])
    ∷ printf "Motor X : %12f deg C\n" (temperature (get_or temps 1 0) ∷ [])
    ∷ printf "Motor Y : %12f deg C\n" (temperature (get_or temps 2 0) ∷ [])
    ∷ printf "mPMT    : %12f deg C\n" (temperature (get_or temps 3 0) ∷ [])
    ∷ printf "Optical : %12f deg C\n" (temperature (get_or temps 4 0) ∷ [])
    ∷ []

unfoldable pub axis_state_lines : List ℕ → List Printed
axis_state_lines status_data =
    printf "X axis moving : %i \n" (bool (get_or status_data 0 0) ∷ [])
    ∷ printf "Y axis moving : %i\n" (bool (get_or status_data 1 0) ∷ [])
    ∷ printf "X limit switch far : %i\n" (bool (get_or status_data 2 0) ∷ [])
    ∷ printf "Y limit switch far : %i\n" (bool (get_or status_data 3 0) ∷ [])
    ∷ printf "X limit switch home : %i\n" (bool (get_or status_data 4 0) ∷ [])
    ∷ printf "Y limit switch home : %i\n" (bool (get_or status_data 5 0) ∷ [])
    ∷ []

-- `res == SERIAL_OK`, with what is printed then and what is printed otherwise. A reply that
-- succeeded always comes with its value.
unfoldable pub reply_lines :
    {A : Type 0} → (A → List Printed) → SerialResult × Option A → List Printed
reply_lines lines (serial_ok, some a) = lines a
reply_lines lines (serial_ok, none) = []
reply_lines lines (res, _) = printf "ERROR: %d\n" (result res ∷ []) ∷ []

unfoldable pub result_lines : String → SerialResult → List Printed
result_lines ok serial_ok = puts ok ∷ []
result_lines ok res = printf "ERROR: %d\n" (result res ∷ []) ∷ []
