-- ===== src/Serial/Session/Exchange.antt =====
-- A send and the reply to it.
use mpmt_test_stand.Prelude.{
  ℕ, suc, ◌<◌, ◌≤◌, ◌≡◌, ◌≢◌, refl, sym, ◌∙◌, ap, Bool, true, false, Option, some, List, ◌++◌,
  arith, length, All, ◌==◌, if◌then◌else◌,
}
use mpmt_test_stand.Serial.{
  Message, msg_data_length_max, msg_delim_start, msg_id_ack, SerialResult, serial_ok,
  serial_err_no_ack,
}
use mpmt_test_stand.Serial.Device.{SerialDevice, Buffer, IsBuffered, IsWriter}
use mpmt_test_stand.Serial.Exec.{TestStandComm, Exec, bind-some}
use mpmt_test_stand.Serial.Transport.{reset}
use mpmt_test_stand.Serial.Transport
use mpmt_test_stand.Serial.Transport.RoundTrip.{
  wire, ticked, recv_message-first, check_for_message-framed, send_message-Sent,
}
use mpmt_test_stand.Serial.Session.{ack_timeout_ms}
use mpmt_test_stand.Serial.Session

module _ {D : Type 0} (dev : SerialDevice D) (rounds bytes : ℕ) where
  pub when_idle :
      {A : Type 0} (busy : Bool) (m n : Exec (TestStandComm D) A) (c : TestStandComm D)
      → busy ≡ false
      → (if busy then m else n) c ≡ n c
  when_idle true m n c e = cc
  when_idle false m n c e = refl

  await_ack-received :
      (c c' : TestStandComm D)
      → Transport.recv_message dev rounds bytes ack_timeout_ms c ≡ some (true, c')
      → Session.await_ack dev rounds bytes c
        ≡ some (if c'.received_msg.id == msg_id_ack then serial_ok else serial_err_no_ack, c')
  unfolding Session.await_ack
  await_ack-received c c' e = ground (arith, e)

  pub send_message-received :
      (msg : Message) (c c1 c' : TestStandComm D)
      → c.transport.msg_in_progress ≡ false
      → Transport.send_message dev msg c ≡ some (true, c1)
      → Transport.recv_message dev rounds bytes ack_timeout_ms c1 ≡ some (true, c')
      → Session.send_message dev rounds bytes msg c
        ≡ some (if c'.received_msg.id == msg_id_ack then serial_ok else serial_err_no_ack, c')
  unfolding Session.send_message
  send_message-received msg c c1 c' idle e r =
      when_idle c.transport.msg_in_progress _ _ c idle
      ∙ (bind-some (Transport.send_message dev msg) _ e ∙ await_ack-received c1 c' r)

-- The outcome of a send whose reply came in.
pub record Exchanged {D : Type 0} (b : Buffer D) (reply : Message) (rest : List ℕ)
    (out : Option (SerialResult × TestStandComm D)) : Type 0 where
  pub after : TestStandComm D
  pub outcome : out ≡ some (if reply.id == msg_id_ack then serial_ok else serial_err_no_ack, after)
  pub ready_again : after.transport ≡ reset
  pub rest_left : b.rx after.device ≡ rest

-- Let an idle side have written the frame of its message, and let the bytes that its first poll
-- finds be noise without a start byte and then the frame of a reply of at most 255 bytes. Then its
-- send returns, reporting success if the reply is an ACK and a missing ACK otherwise, with the
-- receiver ready for the next message and the bytes behind the reply still waiting.
pub send_message-Exchanged :
    {D : Type 0} (dev : SerialDevice D) (b : Buffer D) (reads : IsBuffered dev b)
    (writes : IsWriter dev b) (rounds bytes : ℕ) (msg reply : Message) (c c1 : TestStandComm D)
    (noise rest : List ℕ)
    → c.transport ≡ reset
    → length c.received_msg.payload ≡ msg_data_length_max
    → Transport.send_message dev msg c ≡ some (true, c1)
    → reply.length ≤ msg_data_length_max
    → reply.length ≤ length reply.payload
    → All (λ x. x ≢ msg_delim_start) noise
    → b.rx c1.device ++ b.arrived c1.device ≡ noise ++ (wire reply ++ rest)
    → length (b.rx c1.device ++ b.arrived c1.device) < bytes
    → Exchanged b reply rest (Session.send_message dev (suc rounds) bytes msg c)
unfolding reset
send_message-Exchanged dev b reads writes rounds bytes msg reply c c1 noise rest start room sent
      fits enough quiet waiting short =
    let (ok, d, out, _, _) = send_message-Sent dev b writes msg c in
    let same : some (true, c1) ≡ some (ok, record c { device = d }) = sym sent ∙ out in
    let tr : c1.transport ≡ c.transport = ground (arith, same) in
    let ms : c1.received_msg ≡ c.received_msg = ground (arith, same) in
    let t : TestStandComm _ = ticked dev c1 in
    let rx : b.rx t.device ≡ b.rx c1.device ++ b.arrived c1.device = reads.millis_rx c1.device in
    let (c', got, delivered) =
      check_for_message-framed dev b reads noise rest 0 0 bytes reply t (tr ∙ start)
        (ap (λ m. length m.payload) ms ∙ room) fits enough quiet (rx ∙ waiting) (rw rx short) in
    record {
      after = c';
      outcome =
          send_message-received dev (suc rounds) bytes msg c c1 c'
            (ap (λ x. x.msg_in_progress) start) sent
            (recv_message-first dev rounds bytes ack_timeout_ms c1 c' got)
          ∙ ap (λ id. some (if id == msg_id_ack then serial_ok else serial_err_no_ack, c'))
              delivered.same_id;
      ready_again = delivered.reset_after;
      rest_left = delivered.rest_waits;
    }
