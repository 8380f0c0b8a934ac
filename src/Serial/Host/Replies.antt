-- ===== src/Serial/Host/Replies.antt =====
-- A request of the host whose reply arrives.
use mpmt_test_stand.Prelude.{
  ℕ, suc, ◌+◌, ◌<◌, ◌≤◌, ◌≡◌, ◌≢◌, refl, ap, ◌∙◌, true, Option, some, List, [], ◌∷◌, ◌++◌, arith,
  append_assoc, length, length-append, take, get_or,
}
use mpmt_test_stand.Shared.{
  AxisId, AxisDirection, AxisResult, axis_result_code, msg_id_move, msg_id_axis_result,
}
use mpmt_test_stand.Serial.{
  Message, msg_data_length_max, msg_id_ack, msg_id_nack, SerialResult, serial_ok,
}
use mpmt_test_stand.Serial.Device.{SerialDevice, Buffer, IsBuffered, IsWriter}
use mpmt_test_stand.Serial.Exec.{TestStandComm, bind-some}
use mpmt_test_stand.Serial.Transport.{reset}
use mpmt_test_stand.Serial.Transport
use mpmt_test_stand.Serial.Transport.RoundTrip.{wire}
use mpmt_test_stand.Serial.Transport.Takes.{IsTaking}
use mpmt_test_stand.Serial.Session.{ack_msg, ack_timeout_ms}
use mpmt_test_stand.Serial.Session
use mpmt_test_stand.Serial.Comm
use mpmt_test_stand.Serial.Host
use mpmt_test_stand.Serial.Session.Conversation.{
  Side, Fits, send_message-acked, recv_message-answered,
}

module _ {D : Type 0} (dev : SerialDevice D) (b : Buffer D) (reads : IsBuffered dev b)
    (writes : IsWriter dev b) (takes : IsTaking dev) (rounds bytes : ℕ) where
  -- A run of `Comm.recv_message` whose message is the expected one.
  expected :
      (id len timeout : ℕ) (c c' : TestStandComm D)
      → Session.recv_message dev (suc rounds) bytes timeout c ≡ some (serial_ok, c')
      → c'.received_msg.id ≡ id
      → c'.received_msg.length ≡ len
      → Comm.recv_message dev (suc rounds) bytes id len timeout c ≡ some (serial_ok, c')
  unfolding Comm.recv_message
  expected id len timeout c c' got same_id same_length =
      bind-some (Session.recv_message dev (suc rounds) bytes timeout) _ {s = c} got
      ∙ ground (arith, same_id, same_length)

  -- What a request comes to.
  pub record Replied {A : Type 0} (c : TestStandComm D) (msg reply : Message) (read : List ℕ → A)
      (out : Option ((SerialResult × Option A) × TestStandComm D)) : Type 0 where
    pub after : TestStandComm D
    pub outcome : out ≡ some ((serial_ok, some (read after.received_msg.payload)), after)
    pub same_payload :
        take reply.length after.received_msg.payload ≡ take reply.length reply.payload
    pub ready_again : after.transport ≡ reset
    pub sent : b.tx after.device ≡ (b.tx c.device ++ wire msg) ++ wire ack_msg

  request-Replied :
      {A : Type 0} (msg reply : Message) (timeout k : ℕ) (read : List ℕ → A)
      (c c1 : TestStandComm D) (rest : List ℕ)
      → c.transport ≡ reset
      → length c.received_msg.payload ≡ msg_data_length_max
      → Transport.send_message dev msg c ≡ some (true, c1)
      → Fits reply
      → reply.id ≢ msg_id_ack
      → reply.id ≢ msg_id_nack
      → ((d : D) → length (b.arrived d) ≤ k)
      → b.rx c.device ++ b.arrived c1.device ≡ wire ack_msg ++ (wire reply ++ rest)
      → length (b.rx c.device ++ b.arrived c1.device) + k < bytes
      → Replied c msg reply read (
          Host.request dev
            (suc rounds)
            bytes
            (Session.send_message dev (suc rounds) bytes msg)
            reply.id
            reply.length
            timeout
            read
            c)
  unfolding Host.request
  request-Replied msg reply timeout k read c c1 rest start room sent fit ha hn few waiting short =
      let more = wire reply ++ rest in
      let side : Side b c (b.rx c.device) (b.tx c.device) = record {
        at_start = start;
        room = room;
        received = refl;
        sent = refl;
      } in
      let (c2, acked, side2) =
        send_message-acked dev b reads writes takes rounds bytes msg c c1 (b.rx c.device) more
          (b.tx c.device) side sent waiting (omega arith) in
      let behind = append_assoc (wire reply) rest (b.arrived c2.device) in
      let total : length (b.rx c.device ++ b.arrived c1.device)
          ≡ length (wire ack_msg) + length more =
        ap length waiting ∙ length-append (wire ack_msg) more in
      let joined = length-append more (b.arrived c2.device) in
      let (c3, got, side3, id, len, payload) =
        recv_message-answered dev b reads writes takes rounds bytes reply c2 more
          (rest ++ b.arrived c2.device) (b.tx c.device ++ wire msg) timeout side2 fit ha hn behind
          (omega (arith, few c2.device, joined, total)) in
      record {
        after = c3;
        outcome =
            bind-some (Session.send_message dev (suc rounds) bytes msg) _ {s = c} acked
            ∙ bind-some (Comm.recv_message dev (suc rounds) bytes reply.id reply.length timeout) _
                {s = c2} (expected reply.id reply.length timeout c2 c3 got id len);
        same_payload = payload;
        ready_again = side3.at_start;
        sent = side3.sent;
      }

-- The message of TestStandCommHost::move, and the one of TestStandCommController::axis_result.
abbrev pub move_request : AxisId → AxisDirection → ℕ → ℕ → Message
move_request axis dir vel_hold dist = record {
  id = msg_id_move;
  length = 10;
  payload = Host.move_payload axis dir vel_hold dist;
}

abbrev pub result_reply : AxisResult → Message
result_reply res = record {
  id = msg_id_axis_result;
  length = 1;
  payload = axis_result_code res ∷ [];
}

result_reply-Fits : (res : AxisResult) → Fits (result_reply res)
result_reply-Fits res = record { fits = ground arith; whole = ground arith }

first_byte : (payload : List ℕ) (x : ℕ) → take 1 payload ≡ x ∷ [] → get_or payload 0 0 ≡ x
first_byte [] x e = cc
first_byte (y ∷ payload) x e = cc

module _ {D : Type 0} (dev : SerialDevice D) (b : Buffer D) (reads : IsBuffered dev b)
    (writes : IsWriter dev b) (takes : IsTaking dev) (rounds bytes : ℕ) where
  -- Let a receive buffer lose nothing, let at most k bytes arrive between two polls, and let the
  -- device take every write. Let an idle host send a move and have the ACK of the controller and
  -- the frame of its AXIS_RESULT in its buffer at the first poll, with more behind them, and let
  -- the polls have fuel for these bytes and k more. Then the move of the host returns with success
  -- and the code of that result, the receiver is ready for the next message, and exactly the frame
  -- of the MOVE and an ACK were put on the wire.
  pub move-replied :
      (axis : AxisId) (dir : AxisDirection) (vel_hold dist timeout k : ℕ) (res : AxisResult)
      (c c1 : TestStandComm D) (rest : List ℕ)
      → c.transport ≡ reset
      → length c.received_msg.payload ≡ msg_data_length_max
      → Transport.send_message dev (move_request axis dir vel_hold dist) c ≡ some (true, c1)
      → ((d : D) → length (b.arrived d) ≤ k)
      → b.rx c.device ++ b.arrived c1.device ≡ wire ack_msg ++ (wire (result_reply res) ++ rest)
      → length (b.rx c.device ++ b.arrived c1.device) + k < bytes
      → (c' : TestStandComm D) × (Host.move dev (suc rounds) bytes axis dir vel_hold dist timeout c
          ≡ some ((serial_ok, some (axis_result_code res)), c'))
        × (c'.transport ≡ reset)
        × (b.tx c'.device
            ≡ (b.tx c.device ++ wire (move_request axis dir vel_hold dist)) ++ wire ack_msg)
  unfolding Host.move
  move-replied axis dir vel_hold dist timeout k res c c1 rest start room sent few waiting short =
      let got =
        request-Replied dev b reads writes takes rounds bytes (move_request axis dir vel_hold dist)
          (result_reply res) timeout k (λ payload. get_or payload 0 0) c c1 rest start room sent
          (result_reply-Fits res) (λ e. cc) (λ e. cc) few waiting short in
      let byte =
        first_byte got.after.received_msg.payload (axis_result_code res) got.same_payload in
      (
        got.after,
        got.outcome ∙ ap (λ n. some ((serial_ok, some n), got.after)) byte,
        got.ready_again,
        got.sent,
      )
