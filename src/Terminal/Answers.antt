-- ===== src/Terminal/Answers.antt =====
-- A move that is typed, sent and answered.
use mpmt_test_stand.Prelude.{
  ℕ, suc, ◌+◌, ◌<◌, ◌≤◌, ◌≡◌, refl, ap, ◌∙◌, Bool, true, Option, none, some, List, ◌∷◌, ◌++◌,
  length,
}
use mpmt_test_stand.Shared.{AxisId, AxisResult, axis_result_code, msg_receive_timeout_ms}
use mpmt_test_stand.Serial.{msg_data_length_max, serial_ok}
use mpmt_test_stand.Serial.Device.{SerialDevice, Buffer, IsBuffered, IsWriter}
use mpmt_test_stand.Serial.Exec.{TestStandComm, Exec, bind-some}
use mpmt_test_stand.Serial.Transport.{reset}
use mpmt_test_stand.Serial.Transport
use mpmt_test_stand.Serial.Transport.RoundTrip.{wire}
use mpmt_test_stand.Serial.Transport.Takes.{IsTaking}
use mpmt_test_stand.Serial.Session.{ack_msg}
use mpmt_test_stand.Serial.Host
use mpmt_test_stand.Serial.Host.Replies.{move_request, result_reply, move-replied}
use mpmt_test_stand.Terminal.{puts, Terminal, returned, on_link}
use mpmt_test_stand.Terminal.Stream.{is_digit, uint32_max}
use mpmt_test_stand.Terminal.Replies.{axis_result_line, reply_lines}
use mpmt_test_stand.Terminal.Handlers.{send_move}
use mpmt_test_stand.Terminal.Program.{turn}
use mpmt_test_stand.Terminal.Effects.{prompted}
use mpmt_test_stand.Terminal.Numbers.{numeral, stops}
use mpmt_test_stand.Terminal.MoveLines.{direction, command, move_line, turn-move_line}

on_link-some :
    {D A : Type 0} (m : Exec (TestStandComm D) A) (t : Terminal D) (a : A) (c : TestStandComm D)
    → m t.comm ≡ some (a, c)
    → on_link m t ≡ some (a, record t { comm = c })
on_link-some {D = D} {A = A} m t a c e =
    ap
      (λ r. elim r as (λ _. Option (A × Terminal D)) [
        | none ↦ none
        | some (a, c) ↦ some (a, record t { comm = c })
      ])
      e

module _ {D : Type 0} (dev : SerialDevice D) (b : Buffer D) (reads : IsBuffered dev b)
    (writes : IsWriter dev b) (takes : IsTaking dev) (rounds bytes polls uninit : ℕ) where
  -- A move that was answered is reported by the line for its result.
  send_move-answered :
      (axis : AxisId) (negative : Bool) (vel_hold dist : ℕ) (res : AxisResult) (t : Terminal D)
      (c : TestStandComm D)
      → Host.move dev
          (suc rounds)
          bytes
          axis
          (direction negative)
          vel_hold
          dist
          msg_receive_timeout_ms
          t.comm
        ≡ some ((serial_ok, some (axis_result_code res)), c)
      → send_move dev (suc rounds) bytes polls uninit (command axis negative vel_hold dist) t
        ≡ some (
          returned true,
          record t { comm = c; printed = axis_result_line (axis_result_code res) ∷ t.printed },
        )
  unfolding send_move reply_lines
  send_move-answered axis negative vel_hold dist res t c e =
      let send =
        Host.move dev (suc rounds) bytes axis (direction negative) vel_hold dist
          msg_receive_timeout_ms in
      bind-some (on_link send) _ {s = t}
        (on_link-some send t (serial_ok, some (axis_result_code res)) c e)

  -- Let the next line say `move`, one of the two axes, one of the two directions and two decimal
  -- numerals of uint32_t, each after one blank, and go on with nothing or with a character that is
  -- no digit. Let the link be idle, the buffer lose nothing, at most k bytes arrive between two
  -- polls, the device take every write, and the ACK of the controller and its AXIS_RESULT be in
  -- the buffer at the first poll, with fuel for these bytes and k more. Then the turn of the loop
  -- returns and the loop goes on, the line was read, exactly the frame of that move and an ACK
  -- were put on the wire, and behind the prompt the line for that result was printed.
  pub turn-answered :
      (axis : AxisId) (negative : Bool) (vel_hold dist k : ℕ) (res : AxisResult)
      (tail rest : List ℕ) (lines : List (List ℕ)) (t : Terminal D) (c1 : TestStandComm D)
      → vel_hold ≤ uint32_max
      → dist ≤ uint32_max
      → stops is_digit tail ≡ true
      → t.stdin
        ≡ move_line axis negative (numeral vel_hold ++ (b' ' ∷ (numeral dist ++ tail))) ∷ lines
      → t.comm.transport ≡ reset
      → length t.comm.received_msg.payload ≡ msg_data_length_max
      → Transport.send_message dev (move_request axis (direction negative) vel_hold dist) t.comm
        ≡ some (true, c1)
      → ((d : D) → length (b.arrived d) ≤ k)
      → b.rx t.comm.device ++ b.arrived c1.device
        ≡ wire ack_msg ++ (wire (result_reply res) ++ rest)
      → length (b.rx t.comm.device ++ b.arrived c1.device) + k < bytes
      → (t' : Terminal D) × (turn dev (suc rounds) bytes polls uninit t ≡ some (returned true, t'))
        × (t'.stdin ≡ lines)
        × (t'.printed ≡ axis_result_line (axis_result_code res) ∷ puts "> " ∷ t.printed)
        × (b.tx t'.comm.device
            ≡ (b.tx t.comm.device ++ wire (move_request axis (direction negative) vel_hold dist))
              ++ wire ack_msg)
  turn-answered axis negative vel_hold dist k res tail rest lines t c1 hv hd stop typed start room
        sent few waiting short =
      let (c, replied, _, tx) =
        move-replied dev b reads writes takes rounds bytes axis (direction negative) vel_hold dist
          msg_receive_timeout_ms k res t.comm c1 rest start room sent few waiting short in
      (
        _,
        turn-move_line dev (suc rounds) bytes polls uninit axis negative vel_hold dist tail lines t
              hv hd stop typed
            ∙ send_move-answered axis negative vel_hold dist res (prompted t lines) c replied,
        refl,
        refl,
        tx,
      )
