-- ===== src/Serial/Transport/RoundTrip.antt =====
-- What one side sends, the other side receives.
use mpmt_test_stand.Prelude.{
  ℕ, suc, ◌≤◌, ◌<◌, ◌≡◌, ◌≢◌, refl, Bool, true, false, Option, some, List, [], ◌∷◌, ◌++◌, arith,
  length, sym, ◌∙◌, ap, All, take, Bool-cases, inl, inr, append_assoc, append-nil, length-take,
}
use mathlib.Core.List.{append_cancel_left}
use mpmt_test_stand.Serial.{Message, msg_data_length_max, msg_delim_start}
use mpmt_test_stand.Serial.Device.{SerialDevice, Buffer, IsBuffered, IsWriter}
use mpmt_test_stand.Serial.Exec.{TestStandComm, bind-some}
use mpmt_test_stand.Serial.Transport.{
  reset, check_for_message, recv_loop, recv_message, write_all, frame_writes, send_message,
  receiver,
}
use mpmt_test_stand.Serial.Transport.Feed.{feed, check_for_message-Polled}
use mpmt_test_stand.Serial.Transport.Frame.{
  framed, idle, received, feed-noise, feed-framed, take-received, length-write_at,
}

abbrev concat : List (List ℕ) → List ℕ
concat [] = []
concat (xs ∷ rest) = xs ++ concat rest

-- The bytes of a message on the wire.
abbrev pub wire : Message → List ℕ
wire msg = framed msg.id 0 0 (take msg.length msg.payload) msg.length

module _ {D : Type 0} (dev : SerialDevice D) (b : Buffer D) (laws : IsWriter dev b) where
  abbrev Sent : TestStandComm D → List ℕ → Option (Bool × TestStandComm D) → Type 0
  Sent c xs out =
      (sent : Bool) × (d : D) × (out ≡ some (sent, record c { device = d }))
      × (sent ≡ true → b.tx d ≡ b.tx c.device ++ xs)
      × (b.rx d ≡ b.rx c.device)

  write_all-Sent :
      (bufs : List (List ℕ)) (c : TestStandComm D) → Sent c (concat bufs) (write_all dev bufs c)
  unfolding write_all
  write_all-Sent [] c = (true, c.device, refl, λ _. sym (append-nil (b.tx c.device)), refl)
  write_all-Sent (buf ∷ rest) c = elim (Bool-cases (dev.ser_write c.device buf).0) [
    | inl written ↦
        let d = (dev.ser_write c.device buf).1 in
        let (sent, d', out, tx', rx') = write_all-Sent rest (record c { device = d }) in
        (
          sent,
          d',
          rw written out,
          (λ ok.
              tx' ok
              ∙ ap (λ t. t ++ concat rest) (laws.write_tx c.device buf written)
              ∙ append_assoc (b.tx c.device) buf (concat rest)),
          rx' ∙ laws.write_rx c.device buf,
        )
    | inr failed ↦
        (false, (dev.ser_write c.device buf).1, rw failed, (λ e. cc), laws.write_rx c.device buf)
  ]

  -- send_message always returns; on true exactly the frame of the message is on the wire, and
  -- nothing but the device has changed.
  pub send_message-Sent :
      (msg : Message) (c : TestStandComm D) → Sent c (wire msg) (send_message dev msg c)
  unfolding send_message
  send_message-Sent msg c = write_all-Sent (frame_writes msg) c

-- The receiving side of a message: the state after a poll that returned true.
pub record Delivered {D : Type 0} (b : Buffer D) (c c' : TestStandComm D) (msg : Message)
    (rest : List ℕ) : Type 0 where
  pub reset_after : c'.transport ≡ reset
  pub same_id : c'.received_msg.id ≡ msg.id
  pub same_length : c'.received_msg.length ≡ msg.length
  pub same_payload : take msg.length c'.received_msg.payload ≡ take msg.length msg.payload
  pub same_room : length c'.received_msg.payload ≡ length c.received_msg.payload
  pub rest_waits : b.rx c'.device ≡ rest
  pub nothing_sent : b.tx c'.device ≡ b.tx c.device

module _ {D : Type 0} (dev : SerialDevice D) (b : Buffer D) (laws : IsBuffered dev b) where
  abbrev pub PolledMessage :
      TestStandComm D → Message → List ℕ → Option (Bool × TestStandComm D) → Type 0
  PolledMessage c msg rest out =
      (c' : TestStandComm D) × (out ≡ some (true, c')) × Delivered b c c' msg rest

  -- Let a receiver be at the start of a message, and let its buffer hold noise without a start
  -- byte, then the frame of a message of at most 255 bytes with any two bytes in place of the CRC,
  -- then more. Then a poll returns with that message, the receiver is at the start again, and what
  -- stood behind the frame still waits.
  pub check_for_message-framed :
      (noise rest : List ℕ) (c0 c1 fuel : ℕ) (msg : Message) (c : TestStandComm D)
      → c.transport ≡ reset
      → length c.received_msg.payload ≡ msg_data_length_max
      → msg.length ≤ msg_data_length_max
      → msg.length ≤ length msg.payload
      → All (λ x. x ≢ msg_delim_start) noise
      → b.rx c.device
        ≡ noise ++ (framed msg.id c0 c1 (take msg.length msg.payload) msg.length ++ rest)
      → length (b.rx c.device) < fuel
      → PolledMessage c msg rest (check_for_message dev fuel c)
  check_for_message-framed noise rest c0 c1 fuel msg c idle_before room fits enough quiet waiting
        h =
      let body = take msg.length msg.payload in
      let n : length body ≡ msg.length = length-take msg.length msg.payload enough in
      let m = c.received_msg in
      let fed : feed (b.rx c.device) (receiver c) ≡ record {
        done = true;
        receiver = idle (received msg.id msg.length body m);
        rest = rest;
      } =
        rw (waiting, idle_before, feed-noise noise _ m quiet)
          (feed-framed msg.id c0 c1 msg.length body rest m n (omega arith)) in
      let (d, out, left, sent) =
        rw fed at (check_for_message-Polled dev b laws (b.rx c.device) fuel c refl h) in
      (
        _,
        out,
        record {
          reset_after = refl;
          same_id = refl;
          same_length = refl;
          same_payload = take-received msg.id msg.length body m n (omega arith);
          same_room = length-write_at 0 body m.payload;
          rest_waits = left;
          nothing_sent = sent;
        },
      )

-- Let a sender report that a message of at most 255 bytes was sent, and let exactly the bytes that
-- it put on the wire be in the buffer of a receiver at the start of a message, behind noise
-- without a start byte. Then a poll of the receiver returns with the identifier, the length and
-- the payload that were sent.
pub send-check_for_message :
    {D E : Type 0} (dev : SerialDevice D) (b : Buffer D) (writes : IsWriter dev b)
    (dev' : SerialDevice E) (b' : Buffer E) (reads : IsBuffered dev' b') (msg : Message)
    (c c1 : TestStandComm D) (r : TestStandComm E) (sent noise rest : List ℕ) (fuel : ℕ)
    → send_message dev msg c ≡ some (true, c1)
    → b.tx c1.device ≡ b.tx c.device ++ sent
    → msg.length ≤ msg_data_length_max
    → msg.length ≤ length msg.payload
    → r.transport ≡ reset
    → length r.received_msg.payload ≡ msg_data_length_max
    → All (λ x. x ≢ msg_delim_start) noise
    → b'.rx r.device ≡ noise ++ (sent ++ rest)
    → length (b'.rx r.device) < fuel
    → PolledMessage dev' b' reads r msg rest (check_for_message dev' fuel r)
send-check_for_message dev b writes dev' b' reads msg c c1 r sent noise rest fuel out tx fits enough
      idle_before room quiet rx h =
    let (ok, d, out', tx', _) = send_message-Sent dev b writes msg c in
    let same : some (true, c1) ≡ some (ok, record c { device = d }) = sym out ∙ out' in
    let device : c1.device ≡ d = ground (arith, same) in
    let bytes : sent ≡ wire msg =
      append_cancel_left (b.tx c.device) sent (wire msg)
        (sym tx ∙ ap b.tx device ∙ tx' (ground (arith, same))) in
    check_for_message-framed dev' b' reads noise rest 0 0 fuel msg r idle_before room fits enough
      quiet (rx ∙ ap (λ t. noise ++ (t ++ rest)) bytes) h

-- The state after the clock was read.
abbrev pub ticked : {D : Type 0} → SerialDevice D → TestStandComm D → TestStandComm D
ticked dev c = record c { device = (dev.platform_millis c.device).1 }

-- A message that the first poll finds is received, whatever the timeout.
pub recv_message-first :
    {D : Type 0} (dev : SerialDevice D) (rounds bytes timeout : ℕ) (c c' : TestStandComm D)
    → check_for_message dev bytes (ticked dev c) ≡ some (true, c')
    → recv_message dev (suc rounds) bytes timeout c ≡ some (true, c')
unfolding recv_message recv_loop
recv_message-first dev rounds bytes timeout c c' e = bind-some (check_for_message dev bytes) _ e
