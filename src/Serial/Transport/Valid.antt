-- ===== src/Serial/Transport/Valid.antt =====
-- The operations of the transport keep the receiver valid, on any device that reads bytes.
use mpmt_test_stand.Prelude.{
  ℕ, zero, suc, ◌<◌, ◌≡◌, true, false, Option, none, some, List, [], ◌∷◌, ◌==◌, ltb, u32, sub64,
  Option-cases, inl, inr,
}
use mpmt_test_stand.Serial.{Message}
use mpmt_test_stand.Serial.Device.{SerialDevice}
use mpmt_test_stand.Serial.Exec.{TestStandComm, Exec, ◌>>=◌, on_device, modify}
use mpmt_test_stand.Serial.Exec.Keeps.{
  Keeps, Keeps-out_of_fuel, Keeps-pure, Keeps-if, Keeps-bind, Keeps-modify,
}
use mpmt_test_stand.Serial.Transport.{
  reset, receiver, take_byte, on_read, check_for_message, recv_loop, recv_message, write_all,
  frame_writes, send_message,
}
use mpmt_test_stand.Serial.Transport.Bounds.{IsValid, recv_byte-IsValid, reset-IsValid}

-- A device whose reads give bytes.
pub record IsByteDevice {D : Type 0} (dev : SerialDevice D) : Type 0 where
  pub read_bound : (d : D) (x : ℕ) → (dev.ser_read d).0 ≡ some x → x < 256

abbrev pub IsValidComm : {D : Type 0} → TestStandComm D → Type 0
IsValidComm c = IsValid (receiver c)

module _ {D : Type 0} (dev : SerialDevice D) (bytes : IsByteDevice dev) where
  on_device-IsValid : {A : Type 0} (f : D → A × D) → Keeps IsValidComm (on_device {D = D} f)
  on_device-IsValid f = record { at = λ c v. v }

  take_byte-IsValid : (x : ℕ) → x < 256 → Keeps IsValidComm (take_byte dev x)
  unfolding take_byte
  take_byte-IsValid x h = record { at = λ c v. recv_byte-IsValid x (receiver c) h v }

  -- A rule for a read: what follows may use that a byte was read.
  read-IsValid :
      {B : Type 0} (k : Option ℕ → Exec (TestStandComm D) B)
      → Keeps IsValidComm (k none)
      → ((x : ℕ) → x < 256 → Keeps IsValidComm (k (some x)))
      → Keeps IsValidComm (on_device dev.ser_read >>= k)
  read-IsValid k kn ks = record {
    at = λ c v. elim (Option-cases (dev.ser_read c.device).0) [
      | inl e ↦ rw e (kn.at _ v)
      | inr (x, e) ↦ rw e ((ks x (bytes.read_bound c.device x e)).at _ v)
    ];
  }

  pub check_for_message-IsValid : (fuel : ℕ) → Keeps IsValidComm (check_for_message dev fuel)
  unfolding check_for_message
  check_for_message-IsValid zero = Keeps-out_of_fuel
  check_for_message-IsValid (suc fuel) =
      Keeps-bind _
        (λ n. Keeps-if (n == 0) _ _ (Keeps-pure false) (
          read-IsValid (on_read dev (check_for_message dev fuel)) (Keeps-pure false) λ x h.
            Keeps-bind _
              (λ done. Keeps-if done _ _ (Keeps-pure true) (check_for_message-IsValid fuel)) _
              (take_byte-IsValid x h)))
        _ (on_device-IsValid dev.ser_available)

  reset-Keeps : Keeps IsValidComm (modify (λ (c : TestStandComm D). record c { transport = reset }))
  reset-Keeps = Keeps-modify _ (λ c v. reset-IsValid c.received_msg v.room)

  recv_loop-IsValid :
      (rounds fuel start timeout : ℕ) → Keeps IsValidComm (recv_loop dev rounds fuel start timeout)
  unfolding recv_loop
  recv_loop-IsValid zero fuel start timeout = Keeps-out_of_fuel
  recv_loop-IsValid (suc rounds) fuel start timeout =
      Keeps-bind _
        (λ got. Keeps-if got _ _ (Keeps-pure true) (
          Keeps-bind _
            (λ now.
              Keeps-if (ltb timeout (sub64 now start)) _ _
                (Keeps-bind _ (λ _. Keeps-pure false) _ reset-Keeps)
                (recv_loop-IsValid rounds fuel start timeout))
            _ (on_device-IsValid dev.platform_millis)))
        _ (check_for_message-IsValid fuel)

  pub recv_message-IsValid :
      (rounds fuel timeout : ℕ) → Keeps IsValidComm (recv_message dev rounds fuel timeout)
  unfolding recv_message
  recv_message-IsValid rounds fuel timeout =
      Keeps-bind _ (λ now. recv_loop-IsValid rounds fuel (u32 now) timeout) _
        (on_device-IsValid dev.platform_millis)

  write_all-IsValid : (bufs : List (List ℕ)) → Keeps IsValidComm (write_all dev bufs)
  unfolding write_all
  write_all-IsValid [] = Keeps-pure true
  write_all-IsValid (buf ∷ rest) =
      Keeps-bind _ (λ sent. Keeps-if sent _ _ (write_all-IsValid rest) (Keeps-pure false)) _
        (on_device-IsValid (λ d. dev.ser_write d buf))

  pub send_message-IsValid : (msg : Message) → Keeps IsValidComm (send_message dev msg)
  unfolding send_message
  send_message-IsValid msg = write_all-IsValid (frame_writes msg)
