-- ===== src/Examples/Terminal.antt =====
-- The terminal at concrete lines.
use mpmt_test_stand.Prelude.{
  ℕ, ◌≡◌, refl, List, [], ◌∷◌, ◌++◌, ap, ◌↔◌, true, false, none, some, arith,
}
use mpmt_test_stand.Shared.{axis_x, axis_y, axis_dir_negative, axis_err_ls_far}
use mpmt_test_stand.Serial.{Message, msg_id_ping}
use mpmt_test_stand.Serial.Exec.{TestStandComm}
use mpmt_test_stand.Serial.Transport.RoundTrip.{wire}
use mpmt_test_stand.Serial.Session.{ack_msg}
use mpmt_test_stand.Terminal.{codes, printf, puts, string, text, Terminal, cmd_id_reset, returned}
use mpmt_test_stand.Serial.Host.{move_payload}
use mpmt_test_stand.Serial.Host.Replies.{move_request, result_reply}
use mpmt_test_stand.Serial.Transport.{reset}
use mpmt_test_stand.Serial.Transport
use mpmt_test_stand.Terminal.Replies.{axis_result_line}
use mpmt_test_stand.Terminal.Answers.{turn-answered}
use mpmt_test_stand.Terminal.Program.{session, turn}
use mpmt_test_stand.Terminal.Handlers.{send_move, wait_for_arduino}
use mpmt_test_stand.Terminal.Commands.{commands, command_name, find_command}
use mpmt_test_stand.Terminal.Lookup.{find_command_lem}
use mpmt_test_stand.Terminal.MoveLines.{move_line, command, turn-move_line, turn-unread_distance}
use mpmt_test_stand.Terminal.Numbers.{numeral}
use mpmt_test_stand.Terminal.Effects.{prompted}
use mpmt_test_stand.Terminal.Sessions.{Ended, session-Ended, session-end_of_input}
use mpmt_test_stand.Terminal.Waiting.{WaitsForPing, wait_for_arduino_lem}
use mpmt_test_stand.Examples.Helper.{host}
use mpmt_test_stand.Examples.Wire.{
  Wire, wire_device, wire_buffer, wire_device-IsBuffered, wire_device-IsWriter,
}

-- A terminal with some lines typed.
abbrev typing : List (List ℕ) → Terminal Wire
typing lines = record { comm = host []; stdin = lines; printed = [] }

abbrev help_and_exit : List (List ℕ)
help_and_exit = codes "help move" ∷ [] ∷ codes "hello" ∷ codes "exit" ∷ codes "stop" ∷ []

abbrev exited : Terminal Wire
exited = record {
  comm = host [];
  stdin = codes "stop" ∷ [];
  printed =
      puts "> "
      ∷ puts "Invalid command"
      ∷ puts "> "
      ∷ puts "> "
      ∷ printf "usage: %s\n" (string "move <x|y> <pos|neg> <hold_vel> <dist>" ∷ [])
      ∷ printf "%s - %s\n\n" (text (codes "move") ∷ string "Move the gantry to a new position" ∷ [])
      ∷ puts "> "
      ∷ [];
}

session_of_four :
    session wire_device 0 0 0 7 9 (typing help_and_exit) ≡ some (returned false, exited)
unfolding session
session_of_four = refl

session-Ended_example : Ended wire_device 0 0 0 7 help_and_exit exited
session-Ended_example =
    session-Ended wire_device 0 0 0 7 9 (typing help_and_exit) exited session_of_four

session-end_of_input_example : session wire_device 0 0 0 7 100 (typing []) ≡ none
session-end_of_input_example = session-end_of_input wire_device 0 0 0 7 100 (typing []) refl

find_command_lem_example :
    (find_command (codes "reset") commands ≡ some cmd_id_reset)
    ↔ (codes "reset" ≡ command_name cmd_id_reset)
find_command_lem_example = find_command_lem (codes "reset") cmd_id_reset

-- move y neg 800 12500 and a comment
abbrev move_typed : List ℕ
move_typed = codes "move y neg 800 12500 counts"

move_typed_shape :
    move_typed ≡ move_line axis_y true (numeral 800 ++ (b' ' ∷ (numeral 12500 ++ codes " counts")))
unfolding move_line
move_typed_shape = refl

turn-move_line_example :
    turn wire_device 0 0 0 7 (typing (move_typed ∷ []))
    ≡ send_move wire_device 0 0 0 7
        (command axis_y true 800 12500)
        (prompted (typing (move_typed ∷ [])) [])
turn-move_line_example =
    turn-move_line wire_device 0 0 0 7 axis_y true 800 12500 (codes " counts") []
      (typing (move_typed ∷ [])) (ground arith) (ground arith) refl
      (ap (λ line. line ∷ []) move_typed_shape)

abbrev blank_typed : List ℕ
blank_typed = codes "move x pos 800 "

turn-unread_distance_example :
    turn wire_device 0 0 0 7 (typing (blank_typed ∷ []))
    ≡ send_move wire_device 0 0 0 7
        (command axis_x false 800 7)
        (prompted (typing (blank_typed ∷ [])) [])
unfolding move_line
turn-unread_distance_example =
    turn-unread_distance wire_device 0 0 0 7 axis_x false 800 [] (typing (blank_typed ∷ []))
      (ground arith) refl

abbrev ping_msg : Message
ping_msg = record { id = msg_id_ping; length = 0; payload = [] }

-- A ping waits; it is taken and acknowledged.
abbrev pinged : TestStandComm Wire
pinged = record (host []) {
  device = record { rx = []; tx = wire ack_msg };
  received_msg = record (host []).received_msg { id = msg_id_ping };
}

wait_for_arduino_lem_example :
    ((n : ℕ) × (wait_for_arduino wire_device 9 9 n (host (wire ping_msg)) ≡ some (tt, pinged)))
    ↔ WaitsForPing wire_device 9 9 (host (wire ping_msg)) pinged
wait_for_arduino_lem_example = wait_for_arduino_lem wire_device 9 9 (host (wire ping_msg)) pinged

-- The same line with the controller's answers in the buffer.
abbrev answered : Terminal Wire
answered = record (typing (move_typed ∷ [])) {
  comm = host (wire ack_msg ++ wire (result_reply axis_err_ls_far));
}

abbrev asking : TestStandComm Wire
asking = record answered.comm {
  device = record answered.comm.device {
    tx = wire (move_request axis_y axis_dir_negative 800 12500);
  };
}

turn-answered_example :
    (t' : Terminal Wire) × (turn wire_device 1 60 0 7 answered ≡ some (returned true, t'))
    × (t'.stdin ≡ [])
    × (t'.printed ≡ axis_result_line 3 ∷ puts "> " ∷ [])
    × (t'.comm.device.tx ≡ wire (move_request axis_y axis_dir_negative 800 12500) ++ wire ack_msg)
unfolding reset Transport.send_message move_payload
turn-answered_example =
    turn-answered wire_device wire_buffer wire_device-IsBuffered wire_device-IsWriter (λ d xs. refl)
      0 60 0 7 axis_y true 800 12500 0 axis_err_ls_far (codes " counts") [] [] answered asking
      (ground arith) (ground arith) refl (ap (λ line. line ∷ []) move_typed_shape) refl refl refl
      (λ d. omega arith) refl (ground arith)
