-- ===== src/Serial/Session/Acks.antt =====
-- What the acknowledgements of the session mean.
use mpmt_test_stand.Prelude.{
  ℕ, ◌≡◌, ◌≢◌, refl, sym, ◌∙◌, Bool, true, false, Option, none, some, ◌++◌, arith, if◌then◌else◌,
}
use mpmt_test_stand.Serial.{
  Message, msg_id_ack, msg_id_nack, SerialResult, serial_ok, serial_ok_no_msg,
  serial_err_msg_in_progress, serial_err_send_failed,
}
use mpmt_test_stand.Serial.Device.{SerialDevice, Buffer, IsWriter}
use mpmt_test_stand.Serial.Exec.{TestStandComm, pure, ◌>>=◌, bind-some}
use mpmt_test_stand.Serial.Transport
use mpmt_test_stand.Serial.Transport.RoundTrip.{wire, send_message-Sent}
use mpmt_test_stand.Serial.Session.{ack_timeout_ms, ack_msg}
use mpmt_test_stand.Serial.Session

module _ {D : Type 0} (dev : SerialDevice D) (b : Buffer D) (rounds bytes : ℕ) where
  -- What a send that is acknowledged did.
  pub record Acked (msg : Message) (c c' : TestStandComm D) : Type 0 where
    pub was_idle : c.transport.msg_in_progress ≡ false
    pub written : TestStandComm D
    pub frame_sent : b.tx written.device ≡ b.tx c.device ++ wire msg
    pub reply_received :
        Transport.recv_message dev rounds bytes ack_timeout_ms written ≡ some (true, c')
    pub reply_is_ack : c'.received_msg.id ≡ msg_id_ack

  await_ack-inv :
      (c c' : TestStandComm D)
      → Session.await_ack dev rounds bytes c ≡ some (serial_ok, c')
      → (Transport.recv_message dev rounds bytes ack_timeout_ms c ≡ some (true, c'))
        × (c'.received_msg.id ≡ msg_id_ack)
  unfolding Session.await_ack
  await_ack-inv c c' e = ground arith

  after_write :
      (sent : Bool) (c c' : TestStandComm D)
      → (if sent then Session.await_ack dev rounds bytes else pure serial_err_send_failed) c
        ≡ some (serial_ok, c')
      → (sent ≡ true) × (Session.await_ack dev rounds bytes c ≡ some (serial_ok, c'))
  after_write true c c' e = (refl, e)
  after_write false c c' e = cc

  idle_send :
      (busy : Bool) (msg : Message) (c c' : TestStandComm D)
      → (if busy
            then pure serial_err_msg_in_progress
            else (Transport.send_message dev msg >>= λ sent.
                if sent then Session.await_ack dev rounds bytes else pure serial_err_send_failed))
          c
        ≡ some (serial_ok, c')
      → (busy ≡ false)
        × ((Transport.send_message dev msg >>= λ sent.
                if sent then Session.await_ack dev rounds bytes else pure serial_err_send_failed)
              c
            ≡ some (serial_ok, c'))
  idle_send true msg c c' e = cc
  idle_send false msg c c' e = (refl, e)

  -- On a device whose successful writes go behind what was written before: a send that reports
  -- success began with no message in progress, put exactly the frame of its message on the wire,
  -- and then received a message with the identifier ACK within the wait for it.
  pub send_message-Acked :
      (writes : IsWriter dev b) (msg : Message) (c c' : TestStandComm D)
      → Session.send_message dev rounds bytes msg c ≡ some (serial_ok, c')
      → Acked msg c c'
  unfolding Session.send_message
  send_message-Acked writes msg c c' e =
      let (idle, e1) = idle_send c.transport.msg_in_progress msg c c' e in
      let (sent, d, out, tx, rx) = send_message-Sent dev b writes msg c in
      let c1 : TestStandComm D = record c { device = d } in
      let (ok, e2) =
        after_write sent c1 c' (sym (bind-some (Transport.send_message dev msg) _ out) ∙ e1) in
      let (reply, ack) = await_ack-inv c1 c' e2 in
      record {
        was_idle = idle;
        written = c1;
        frame_sent = tx ok;
        reply_received = reply;
        reply_is_ack = ack;
      }

  -- What a message that the session passed on did: it is no ACK and no NACK, and an ACK was sent for it.
  check_received_msg-inv :
      (writes : IsWriter dev b) (c c' : TestStandComm D)
      → Session.check_received_msg dev rounds bytes c ≡ some (serial_ok, c')
      → (c.received_msg.id ≢ msg_id_ack)
        × (c.received_msg.id ≢ msg_id_nack)
        × (c'.received_msg ≡ c.received_msg)
        × (b.tx c'.device ≡ b.tx c.device ++ wire ack_msg)
  unfolding Session.check_received_msg Session.ack
  check_received_msg-inv writes c c' e =
      let (sent, d, out, tx, rx) = send_message-Sent dev b writes ack_msg c in
      ground (arith, out, tx)

  -- A message that the session has passed on from the transport.
  pub record Answered (received c' : TestStandComm D) : Type 0 where
    pub not_ack : received.received_msg.id ≢ msg_id_ack
    pub not_nack : received.received_msg.id ≢ msg_id_nack
    pub same_msg : c'.received_msg ≡ received.received_msg
    pub ack_sent : b.tx c'.device ≡ b.tx received.device ++ wire ack_msg

  check_received_msg-Answered :
      (writes : IsWriter dev b) (c c' : TestStandComm D)
      → Session.check_received_msg dev rounds bytes c ≡ some (serial_ok, c')
      → Answered c c'
  check_received_msg-Answered writes c c' e =
      let (a, n, m, t) = check_received_msg-inv writes c c' e in
      record { not_ack = a; not_nack = n; same_msg = m; ack_sent = t }

  polled :
      (r : Option (Bool × TestStandComm D)) (no_msg : SerialResult) (c' : TestStandComm D)
      → no_msg ≢ serial_ok
      → elim r as (λ _. Option (SerialResult × TestStandComm D)) [
        | none ↦ none
        | some (got, c1) ↦
            (if got then Session.check_received_msg dev rounds bytes else pure no_msg) c1
      ]
        ≡ some (serial_ok, c')
      → (c1 : TestStandComm D) × (r ≡ some (true, c1))
        × (Session.check_received_msg dev rounds bytes c1 ≡ some (serial_ok, c'))
  polled none no_msg c' n e = cc
  polled (some (true, c1)) no_msg c' n e = (c1, refl, e)
  polled (some (false, c1)) no_msg c' n e = elim (n cc) [ ]

  -- On a device whose successful writes go behind what was written before: when a poll of the
  -- session reports a message, the transport has received a message, it is neither an ACK nor a
  -- NACK, it is left as received, and exactly the frame of an ACK was sent for it.
  pub check_for_message-Answered :
      (writes : IsWriter dev b) (c c' : TestStandComm D)
      → Session.check_for_message dev rounds bytes c ≡ some (serial_ok, c')
      → (c1 : TestStandComm D) × (Transport.check_for_message dev bytes c ≡ some (true, c1))
        × Answered c1 c'
  unfolding Session.check_for_message
  check_for_message-Answered writes c c' e =
      let (c1, got, rest) =
        polled (Transport.check_for_message dev bytes c) serial_ok_no_msg c' (λ h. cc) e in
      (c1, got, check_received_msg-Answered writes c1 c' rest)
