-- ===== src/Serial/Session/Conversation.antt =====
-- Sending and receiving where the other side answers.
use mpmt_test_stand.Prelude.{
  ℕ, suc, ◌<◌, ◌≤◌, ◌≡◌, ◌≢◌, sym, ap, ◌∙◌, Bool, true, Option, some, List, [], ◌++◌, arith, length,
  take, ◌==◌, if◌then◌else◌,
}
use mpmt_test_stand.Serial.{
  Message, msg_data_length_max, msg_id_ack, msg_id_nack, serial_ok, serial_err_no_ack,
}
use mpmt_test_stand.Serial.Device.{SerialDevice, Buffer, IsBuffered, IsWriter}
use mpmt_test_stand.Serial.Exec.{TestStandComm, bind-some}
use mpmt_test_stand.Serial.Transport.{reset}
use mpmt_test_stand.Serial.Transport
use mpmt_test_stand.Serial.Transport.RoundTrip.{
  wire, ticked, recv_message-first, check_for_message-framed, send_message-Sent,
}
use mpmt_test_stand.Serial.Transport.Takes.{IsTaking}
use mpmt_test_stand.Serial.Session.{ack_msg, ack_timeout_ms}
use mpmt_test_stand.Serial.Session
use mpmt_test_stand.Serial.Session.Exchange.{send_message-received, when_idle}
use mpmt_test_stand.Serial.Session.Delivery.{check_received_msg-taken}

-- A side that is at the start of a message, with what it has received and sent.
pub record Side {D : Type 0} (b : Buffer D) (c : TestStandComm D) (rx tx : List ℕ) : Type 0 where
  pub at_start : c.transport ≡ reset
  pub room : length c.received_msg.payload ≡ msg_data_length_max
  pub received : b.rx c.device ≡ rx
  pub sent : b.tx c.device ≡ tx

-- A message that a receive buffer can hold.
pub record Fits (msg : Message) : Type 0 where
  pub fits : msg.length ≤ msg_data_length_max
  pub whole : msg.length ≤ length msg.payload

ack_msg-Fits : Fits ack_msg
ack_msg-Fits = record { fits = ground arith; whole = ground arith }

module _ {D : Type 0} (dev : SerialDevice D) (b : Buffer D) (reads : IsBuffered dev b)
    (rounds bytes : ℕ) where
  -- A receive whose first poll finds the frame of a message.
  abbrev Found : TestStandComm D → Message → List ℕ → List ℕ → ℕ → Type 0
  Found c msg more tx timeout =
      (c' : TestStandComm D) × (Transport.recv_message dev (suc rounds) bytes timeout c
        ≡ some (true, c'))
      × Side b c' more tx
      × (c'.received_msg.id ≡ msg.id)
      × (c'.received_msg.length ≡ msg.length)
      × (take msg.length c'.received_msg.payload ≡ take msg.length msg.payload)

  recv_message-Found :
      (msg : Message) (c : TestStandComm D) (rx more tx : List ℕ) (timeout : ℕ)
      → Side b c rx tx
      → Fits msg
      → rx ++ b.arrived c.device ≡ wire msg ++ more
      → length (rx ++ b.arrived c.device) < bytes
      → Found c msg more tx timeout
  recv_message-Found msg c rx more tx timeout side fit waiting short =
      let t : TestStandComm D = ticked dev c in
      let buffered : b.rx t.device ≡ rx ++ b.arrived c.device =
        reads.millis_rx c.device ∙ ap (λ xs. xs ++ b.arrived c.device) side.received in
      let (c', got, delivered) =
        check_for_message-framed dev b reads [] more 0 0 bytes msg t side.at_start side.room
          fit.fits fit.whole tt (buffered ∙ waiting) (rw buffered short) in
      (
        c',
        recv_message-first dev rounds bytes timeout c c' got,
        record {
          at_start = delivered.reset_after;
          room = delivered.same_room ∙ side.room;
          received = delivered.rest_waits;
          sent = delivered.nothing_sent ∙ reads.millis_tx c.device ∙ side.sent;
        },
        delivered.same_id,
        delivered.same_length,
        delivered.same_payload,
      )

module _ {D : Type 0} (dev : SerialDevice D) (b : Buffer D) (reads : IsBuffered dev b)
    (writes : IsWriter dev b) (takes : IsTaking dev) (rounds bytes : ℕ) where
  -- A message is sent, and its ACK arrives with more behind it.
  pub send_message-acked :
      (msg : Message) (c c1 : TestStandComm D) (rx more tx : List ℕ)
      → Side b c rx tx
      → Transport.send_message dev msg c ≡ some (true, c1)
      → rx ++ b.arrived c1.device ≡ wire ack_msg ++ more
      → length (rx ++ b.arrived c1.device) < bytes
      → (c2 : TestStandComm D) × (Session.send_message dev (suc rounds) bytes msg c
          ≡ some (serial_ok, c2))
        × Side b c2 more (tx ++ wire msg)
  unfolding reset
  send_message-acked msg c c1 rx more tx side sent waiting short =
      let (ok, d, out, tx_of, rx_of) = send_message-Sent dev b writes msg c in
      let same : ◌≡◌ {A = Option (Bool × TestStandComm D)} (some (true, c1))
          (some (ok, record c { device = d })) =
        sym sent ∙ out in
      let moved : c1 ≡ record c { device = d } = ground (arith, same) in
      let went : ok ≡ true = ground (arith, same) in
      let side1 : Side b c1 rx (tx ++ wire msg) = record {
        at_start = ap (λ x. x.transport) moved ∙ side.at_start;
        room = ap (λ x. length x.received_msg.payload) moved ∙ side.room;
        received = ap (λ x. b.rx x.device) moved ∙ rx_of ∙ side.received;
        sent = ap (λ x. b.tx x.device) moved ∙ tx_of went ∙ ap (λ t. t ++ wire msg) side.sent;
      } in
      let (c2, got, side2, id, _, _) =
        recv_message-Found dev b reads rounds bytes ack_msg c1 rx more (tx ++ wire msg)
          ack_timeout_ms side1 ack_msg-Fits waiting short in
      (
        c2,
        send_message-received dev (suc rounds) bytes msg c c1 c2
              (ap (λ x. x.msg_in_progress) side.at_start) sent got
            ∙ ap (λ id. some (if id == msg_id_ack then serial_ok else serial_err_no_ack, c2)) id,
        side2,
      )

  -- A receive of the session, whose message arrives.
  pub recv_message-answered :
      (msg : Message) (c : TestStandComm D) (rx more tx : List ℕ) (timeout : ℕ)
      → Side b c rx tx
      → Fits msg
      → msg.id ≢ msg_id_ack
      → msg.id ≢ msg_id_nack
      → rx ++ b.arrived c.device ≡ wire msg ++ more
      → length (rx ++ b.arrived c.device) < bytes
      → (c' : TestStandComm D) × (Session.recv_message dev (suc rounds) bytes timeout c
          ≡ some (serial_ok, c'))
        × Side b c' more (tx ++ wire ack_msg)
        × (c'.received_msg.id ≡ msg.id)
        × (c'.received_msg.length ≡ msg.length)
        × (take msg.length c'.received_msg.payload ≡ take msg.length msg.payload)
  unfolding reset Session.recv_message
  recv_message-answered msg c rx more tx timeout side fit ha hn waiting short =
      let (c1, got, side1, id, len, payload) =
        recv_message-Found dev b reads rounds bytes msg c rx more tx timeout side fit waiting
          short in
      let (d, answered, tx_of, rx_of) =
        check_received_msg-taken dev b reads writes takes (suc rounds) bytes c1
          (λ e. ha (sym id ∙ e)) (λ e. hn (sym id ∙ e)) in
      (
        record c1 { device = d },
        when_idle dev (suc rounds) bytes c.transport.msg_in_progress _ _ c
              (ap (λ x. x.msg_in_progress) side.at_start)
            ∙ (bind-some (Transport.recv_message dev (suc rounds) bytes timeout) _ {s = c} got
                ∙ answered),
        record {
          at_start = side1.at_start;
          room = side1.room;
          received = rx_of ∙ side1.received;
          sent = tx_of ∙ ap (λ t. t ++ wire ack_msg) side1.sent;
        },
        id,
        len,
        payload,
      )
