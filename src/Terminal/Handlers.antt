-- ===== src/Terminal/Handlers.antt =====
-- The functions behind the terminal's commands.
use mpmt_test_stand.Prelude.{
  ℕ, zero, suc, Bool, true, false, Option, none, some, List, [], ◌∷◌, ◌==◌, ◌&&◌, not,
  if◌then◌else◌, map,
}
use mpmt_test_stand.Shared.{serial_baud_rate, msg_receive_timeout_ms}
use mpmt_test_stand.Serial.{SerialResult, is_ok, msg_id_ping}
use mpmt_test_stand.Serial.Device.{SerialDevice}
use mpmt_test_stand.Serial.Exec.{
  TestStandComm, Exec, pure, gets, modify, out_of_fuel, on_device, ◌>>=◌, ◌>>◌,
}
use mpmt_test_stand.Serial.Comm
use mpmt_test_stand.Serial.Host
use mpmt_test_stand.Terminal.{
  CommandId, cmd_id_ping, cmd_id_get_status, cmd_id_home, cmd_id_move, cmd_id_stop,
  cmd_id_get_position, cmd_id_get_temp, cmd_id_get_axis_state, cmd_id_link_check, cmd_id_reset,
  cmd_id_help, cmd_id_exit, Printed, printf, puts, string, text, Terminal, Outcome, returned,
  undefined, print, on_link,
}
use mpmt_test_stand.Terminal.Stream.{StringStream, good, read_word}
use mpmt_test_stand.Terminal.Moves.{MoveCommand, read_move}
use mpmt_test_stand.Terminal.Commands.{
  commands, command_name, command_description, command_usage, find_command,
}
use mpmt_test_stand.Terminal.Replies.{
  status_line, axis_result_line, position_lines, temp_lines, axis_state_lines, reply_lines,
  result_lines,
}

-- A function behind a command; all but `help` and `move` ignore their line.
abbrev pub CmdHandler : Type 0 → Type 0
CmdHandler D = StringStream → Exec (Terminal D) Outcome

module _ {D : Type 0} where
  abbrev pub print_all : List Printed → Exec (Terminal D) (Unit {0})
  print_all [] = pure tt
  print_all (line ∷ lines) = print line >> print_all lines

  -- A request whose outcome is printed, and `return true;`.
  abbrev pub reporting :
      {A : Type 0} → Exec (TestStandComm D) A → (A → List Printed) → Exec (Terminal D) Outcome
  reporting send lines = on_link send >>= λ reply. print_all (lines reply) >> pure (returned true)

  unfoldable pub print_cmd_usage : CommandId → Exec (Terminal D) (Unit {0})
  unfolding command_usage
  print_cmd_usage id = print (printf "usage: %s\n" (string (command_usage id) ∷ []))

  unfoldable pub help_general : Exec (Terminal D) (Unit {0})
  unfolding command_description command_name
  help_general =
      print (printf "\nAvailable Commands:\n" [])
      >> print_all (
          map
            (λ id.
              printf "%15s - %s\n" (text (command_name id) ∷ string (command_description id) ∷ []))
            commands)
      >> print
          (printf "\nType `help <command>` to see help information about a specific command\n\n" [])

  -- help_specific after its loop. An unknown name leaves `cmd` null, and its name is then printed.
  unfoldable pub show_command : Option CommandId → Exec (Terminal D) Outcome
  unfolding print_cmd_usage command_name command_description
  show_command none = pure undefined
  show_command (some id) =
      print (printf "%s - %s\n\n" (text (command_name id) ∷ string (command_description id) ∷ []))
      >> print_cmd_usage id
      >> pure (returned true)

  unfoldable pub help_specific : List ℕ → Exec (Terminal D) Outcome
  unfolding find_command show_command
  help_specific cmd_name = show_command (find_command cmd_name commands)

  unfoldable pub help : CmdHandler D
  unfolding good read_word help_specific help_general
  help iss =
      let (word, _) = read_word iss [] in
      if good iss then help_specific word else (help_general >> pure (returned true))

  unfoldable pub exit : CmdHandler D
  exit iss = pure (returned false)

module _ {D : Type 0} (dev : SerialDevice D) (rounds bytes : ℕ) where
  -- The loop that waits for a ping.
  unfoldable pub wait_for_arduino : ℕ → Exec (TestStandComm D) (Unit {0})
  wait_for_arduino zero = out_of_fuel
  wait_for_arduino (suc n) =
      let more = wait_for_arduino n in
      Comm.check_for_message dev rounds bytes >>= λ res. gets (λ c. c.received_msg.id) >>= λ id.
      if is_ok res && id == msg_id_ping then pure tt else more

-- `rounds` and `bytes` are the fuel of the serial layers, `polls` that of the wait for a ping.
module _ {D : Type 0} (dev : SerialDevice D) (rounds bytes polls uninit : ℕ) where
  -- BASIC_CMD
  unfoldable pub basic_cmd : Exec (TestStandComm D) SerialResult → CmdHandler D
  unfolding result_lines
  basic_cmd send iss = reporting send (result_lines "OK")

  -- The call of comm.move, with the lines printed for its result.
  unfoldable pub send_move : MoveCommand → Exec (Terminal D) Outcome
  unfolding reply_lines axis_result_line
  send_move cmd =
      reporting
        (Host.move dev rounds bytes cmd.axis cmd.dir cmd.vel_hold cmd.dist msg_receive_timeout_ms)
        (reply_lines (λ axis_res. axis_result_line axis_res ∷ []))

  -- `move` after its do-while was left by a break, or by the call of comm.move.
  unfoldable pub obey_move : Option MoveCommand → Exec (Terminal D) Outcome
  unfolding send_move print_cmd_usage
  obey_move none = print_cmd_usage cmd_id_move >> pure (returned true)
  obey_move (some cmd) = send_move cmd

  unfoldable pub move : CmdHandler D
  unfolding read_move obey_move
  move iss = obey_move (read_move uninit iss)

  unfoldable pub get_status : CmdHandler D
  unfolding reply_lines status_line
  get_status iss =
      reporting (Host.get_status dev rounds bytes msg_receive_timeout_ms)
        (reply_lines (λ status. status_line status ∷ []))

  unfoldable pub get_position : CmdHandler D
  unfolding reply_lines position_lines
  get_position iss =
      reporting (Host.get_position dev rounds bytes msg_receive_timeout_ms)
        (reply_lines position_lines)

  unfoldable pub get_temp : CmdHandler D
  unfolding reply_lines temp_lines
  get_temp iss =
      reporting (Host.get_temp dev rounds bytes msg_receive_timeout_ms) (reply_lines temp_lines)

  unfoldable pub get_axis_state : CmdHandler D
  unfolding reply_lines axis_state_lines
  get_axis_state iss =
      reporting (Host.get_axis_state dev rounds bytes msg_receive_timeout_ms)
        (reply_lines axis_state_lines)

  unfoldable pub link_check : CmdHandler D
  unfolding result_lines
  link_check iss =
      reporting (Comm.link_check dev rounds bytes msg_receive_timeout_ms) (result_lines "OK")

  unfoldable pub connect_to_arduino : Exec (Terminal D) Bool
  unfolding wait_for_arduino
  connect_to_arduino = on_link (on_device (λ d. dev.ser_connect d serial_baud_rate)) >>= λ opened.
      if not opened
      then pure false
      else (on_link (modify (λ c. record c { device = dev.ser_flush c.device }))
          >> print (puts "Waiting for Arduino...")
          >> on_link (wait_for_arduino dev rounds bytes polls)
          >> on_link (modify (λ c. record c { device = dev.ser_flush c.device }))
          >> print (puts "Connected!")
          >> pure true)

  unfoldable pub reset : CmdHandler D
  unfolding connect_to_arduino
  reset iss =
      on_link (modify (λ c. record c { device = dev.ser_disconnect c.device }))
      >> (connect_to_arduino >>= λ connected. pure (returned connected))

  -- The column of handlers.
  unfoldable pub handler : CommandId → CmdHandler D
  unfolding basic_cmd get_status get_position get_temp get_axis_state link_check reset help exit
      move
  handler cmd_id_ping = basic_cmd (Comm.ping dev rounds bytes)
  handler cmd_id_get_status = get_status
  handler cmd_id_home = basic_cmd (Host.home dev rounds bytes)
  handler cmd_id_move = move
  handler cmd_id_stop = basic_cmd (Host.stop dev rounds bytes)
  handler cmd_id_get_position = get_position
  handler cmd_id_get_temp = get_temp
  handler cmd_id_get_axis_state = get_axis_state
  handler cmd_id_link_check = link_check
  handler cmd_id_reset = reset
  handler cmd_id_help = help
  handler cmd_id_exit = exit
