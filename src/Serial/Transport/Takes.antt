-- ===== src/Serial/Transport/Takes.antt =====
-- Sending on a device that takes every write.
use mpmt_test_stand.Prelude.{ℕ, ◌≡◌, ap, ◌∙◌, Bool, true, some, List, [], ◌∷◌, ◌++◌}
use mpmt_test_stand.Serial.{Message}
use mpmt_test_stand.Serial.Device.{SerialDevice, Buffer, IsWriter}
use mpmt_test_stand.Serial.Exec.{TestStandComm}
use mpmt_test_stand.Serial.Transport.{write_all, frame_writes, send_message}
use mpmt_test_stand.Serial.Transport.RoundTrip.{wire, send_message-Sent}

abbrev pub IsTaking : {D : Type 0} → SerialDevice D → Type 0
IsTaking {D = D} dev = (d : D) (xs : List ℕ) → (dev.ser_write d xs).0 ≡ true

module _ {D : Type 0} (dev : SerialDevice D) (takes : IsTaking dev) where
  write_all-true :
      (bufs : List (List ℕ)) (sent : Bool) (c c' : TestStandComm D)
      → write_all dev bufs c ≡ some (sent, c')
      → sent ≡ true
  unfolding write_all
  write_all-true [] sent c c' e = cc
  write_all-true (buf ∷ rest) sent c c' e =
      write_all-true rest sent (record c { device = (dev.ser_write c.device buf).1 }) c'
        (rw (takes c.device buf) at e)

  -- On such a device a message is sent: its frame is on the wire and nothing else has changed.
  pub send_message-taken :
      (b : Buffer D) (laws : IsWriter dev b) (msg : Message) (c : TestStandComm D)
      → (d : D) × (send_message dev msg c ≡ some (true, record c { device = d }))
        × (b.tx d ≡ b.tx c.device ++ wire msg)
        × (b.rx d ≡ b.rx c.device)
  unfolding send_message
  send_message-taken b laws msg c =
      let (sent, d, out, tx, rx) = send_message-Sent dev b laws msg c in
      let ok = write_all-true (frame_writes msg) sent c (record c { device = d }) out in
      (d, out ∙ ap (λ t. some (t, record c { device = d })) ok, tx ok, rx)
