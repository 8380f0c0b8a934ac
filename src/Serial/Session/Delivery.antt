-- ===== src/Serial/Session/Delivery.antt =====
-- A message whose frame waits is received, and answered by an ACK.
use mpmt_test_stand.Prelude.{
  ℕ, ◌<◌, ◌≤◌, ◌≡◌, ◌≢◌, sym, ap, ◌∙◌, false, some, List, [], ◌++◌, arith, length, take, ◌==◌, ◌||◌,
}
use mpmt_test_stand.Serial.{Message, msg_data_length_max, msg_id_ack, msg_id_nack, serial_ok}
use mpmt_test_stand.Serial.Device.{SerialDevice, Buffer, IsBuffered, IsWriter}
use mpmt_test_stand.Serial.Exec.{TestStandComm, bind-some}
use mpmt_test_stand.Serial.Transport.{reset}
use mpmt_test_stand.Serial.Transport
use mpmt_test_stand.Serial.Transport.RoundTrip.{wire, check_for_message-framed}
use mpmt_test_stand.Serial.Transport.Takes.{IsTaking, send_message-taken}
use mpmt_test_stand.Serial.Session.{ack_msg}
use mpmt_test_stand.Serial.Session

-- What a poll leaves that took a message: the message, its ACK on the wire, and what stood behind it.
pub record Accepted {D : Type 0} (b : Buffer D) (c c' : TestStandComm D) (msg : Message)
    (rest : List ℕ) : Type 0 where
  pub at_start : c'.transport ≡ reset
  pub same_id : c'.received_msg.id ≡ msg.id
  pub same_length : c'.received_msg.length ≡ msg.length
  pub same_payload : take msg.length c'.received_msg.payload ≡ take msg.length msg.payload
  pub same_room : length c'.received_msg.payload ≡ length c.received_msg.payload
  pub rest_waits : b.rx c'.device ≡ rest
  pub acked : b.tx c'.device ≡ b.tx c.device ++ wire ack_msg

-- A receiver at the start of a message, in whose buffer the frame of a message other than an ACK or a
-- NACK waits, with the fuel for a poll.
pub record Waits {D : Type 0} (b : Buffer D) (c : TestStandComm D) (msg : Message) (rest : List ℕ)
    (bytes : ℕ) : Type 0 where
  pub before : c.transport ≡ reset
  pub room : length c.received_msg.payload ≡ msg_data_length_max
  pub fits : msg.length ≤ msg_data_length_max
  pub whole : msg.length ≤ length msg.payload
  pub waiting : b.rx c.device ≡ wire msg ++ rest
  pub fuel : length (b.rx c.device) < bytes
  pub not_ack : msg.id ≢ msg_id_ack
  pub not_nack : msg.id ≢ msg_id_nack

module _ {D : Type 0} (dev : SerialDevice D) (b : Buffer D) (reads : IsBuffered dev b)
    (writes : IsWriter dev b) (takes : IsTaking dev) (rounds bytes : ℕ) where
  no_reply_id :
      (id : ℕ)
      → id ≢ msg_id_ack
      → id ≢ msg_id_nack
      → (id == msg_id_ack || id == msg_id_nack) ≡ false
  no_reply_id id ha hn = ground (arith, ha, hn)

  pub check_received_msg-taken :
      (c : TestStandComm D)
      → c.received_msg.id ≢ msg_id_ack
      → c.received_msg.id ≢ msg_id_nack
      → (d : D) × (Session.check_received_msg dev rounds bytes c
          ≡ some (serial_ok, record c { device = d }))
        × (b.tx d ≡ b.tx c.device ++ wire ack_msg)
        × (b.rx d ≡ b.rx c.device)
  unfolding Session.check_received_msg Session.ack
  check_received_msg-taken c ha hn =
      let (d, out, tx, rx) = send_message-taken dev takes b writes ack_msg c in
      (
        d,
        rw (no_reply_id c.received_msg.id ha hn)
            (bind-some (Transport.send_message dev ack_msg) _ {s = c} out),
        tx,
        rx,
      )

  -- On a device that takes every write, a poll of the session reports the message and has sent an ACK.
  pub check_for_message-Accepted :
      (msg : Message) (rest : List ℕ) (c : TestStandComm D)
      → Waits b c msg rest bytes
      → (c' : TestStandComm D) × (Session.check_for_message dev rounds bytes c
          ≡ some (serial_ok, c'))
        × Accepted b c c' msg rest
  unfolding Session.check_for_message
  check_for_message-Accepted msg rest c w =
      let (c1, out, got) =
        check_for_message-framed dev b reads [] rest 0 0 bytes msg c w.before w.room w.fits w.whole
          tt w.waiting w.fuel in
      let (d, answered, tx, rx) =
        check_received_msg-taken c1 (λ e. w.not_ack (sym got.same_id ∙ e))
          (λ e. w.not_nack (sym got.same_id ∙ e)) in
      (
        record c1 { device = d },
        bind-some (Transport.check_for_message dev bytes) _ {s = c} out ∙ answered,
        record {
          at_start = got.reset_after;
          same_id = got.same_id;
          same_length = got.same_length;
          same_payload = got.same_payload;
          same_room = got.same_room;
          rest_waits = rx ∙ got.rest_waits;
          acked = tx ∙ ap (λ t. t ++ wire ack_msg) got.nothing_sent;
        },
      )
