-- ===== src/Terminal/Commands.antt =====
-- The command table of the terminal, without its functions: the rows in their order, and a function
-- of the row for each column.
use Prim.Native.String.{String}
use mpmt_test_stand.Prelude.{Option, none, some, List, [], ◌∷◌, ℕ, if◌then◌else◌}
use mpmt_test_stand.Terminal.{
  codes, same_text, CommandId, cmd_id_ping, cmd_id_get_status, cmd_id_home, cmd_id_move,
  cmd_id_stop, cmd_id_get_position, cmd_id_get_temp, cmd_id_get_axis_state, cmd_id_link_check,
  cmd_id_reset, cmd_id_help, cmd_id_exit,
}

-- The rows of the table, in its order, and its columns.
abbrev pub commands : List CommandId
commands =
    cmd_id_ping ∷ cmd_id_get_status ∷ cmd_id_home ∷ cmd_id_move ∷ cmd_id_stop ∷ cmd_id_get_position
    ∷ cmd_id_get_temp ∷ cmd_id_get_axis_state ∷ cmd_id_link_check ∷ cmd_id_reset ∷ cmd_id_help
    ∷ cmd_id_exit ∷ []

unfoldable pub command_name : CommandId → List ℕ
command_name cmd_id_ping = codes "ping"
command_name cmd_id_get_status = codes "get_status"
command_name cmd_id_home = codes "home"
command_name cmd_id_move = codes "move"
command_name cmd_id_stop = codes "stop"
command_name cmd_id_get_position = codes "get_position"
command_name cmd_id_get_temp = codes "get_temp"
command_name cmd_id_get_axis_state = codes "get_axis_state"
command_name cmd_id_link_check = codes "link_check"
command_name cmd_id_reset = codes "reset"
command_name cmd_id_help = codes "help"
command_name cmd_id_exit = codes "exit"

unfoldable pub command_description : CommandId → String
command_description cmd_id_ping = "Send a ping to the Arduino to check if it's still alive"
command_description cmd_id_get_status = "Retrieve current status of Arduino"
command_description cmd_id_home = "Execute the homing routing"
command_description cmd_id_move = "Move the gantry to a new position"
command_description cmd_id_stop = "Freeze all motor functions"
command_description cmd_id_get_position = "Retrieve the current position of the gantry"
command_description cmd_id_get_temp = "Retrieve temperature readings"
command_description cmd_id_get_axis_state = "Retrieve axis state (moving + limits)"
command_description cmd_id_link_check = "Verify the serial communication link is working"
command_description cmd_id_reset = "Reset the Arduino"
command_description cmd_id_help = "Display the help message"
command_description cmd_id_exit = "Exit the program"

unfoldable pub command_usage : CommandId → String
command_usage cmd_id_ping = "ping"
command_usage cmd_id_get_status = "get_status"
command_usage cmd_id_home = "home"
command_usage cmd_id_move = "move <x|y> <pos|neg> <hold_vel> <dist>"
command_usage cmd_id_stop = "stop"
command_usage cmd_id_get_position = "get_position"
command_usage cmd_id_get_temp = "get_temp"
command_usage cmd_id_get_axis_state = "get_axis_state"
command_usage cmd_id_link_check = "link_check"
command_usage cmd_id_reset = "reset"
command_usage cmd_id_help = "help or help <command>"
command_usage cmd_id_exit = "exit"

-- The first row with a name, by the loop of help_specific and of get_cmd_handler.
unfoldable pub find_command : List ℕ → List CommandId → Option CommandId
unfolding same_text command_name
find_command cmd_name [] = none
find_command cmd_name (id ∷ ids) =
    let rest = find_command cmd_name ids in
    if same_text (command_name id) cmd_name then some id else rest
