-- ===== src/Serial/Session.antt =====
-- SerialSession.cxx: every message is answered by an ACK.
pub mod Acks
pub mod Exchange
pub mod Delivery
pub mod Conversation
use mpmt_test_stand.Prelude.{ℕ, Bool, true, false, [], ◌==◌, ◌||◌, if◌then◌else◌}
use mpmt_test_stand.Serial.{
  Message, msg_id_ack, msg_id_nack, SerialResult, serial_ok, serial_ok_no_msg, serial_err_no_msg,
  serial_err_timeout, serial_err_msg_in_progress, serial_err_send_failed, serial_err_no_ack,
  serial_err_ack_failed, serial_err_wrong_msg,
}
use mpmt_test_stand.Serial.Device.{SerialDevice}
use mpmt_test_stand.Serial.Exec.{TestStandComm, Exec, pure, gets, ◌>>=◌}
use mpmt_test_stand.Serial.Transport

abbrev pub ack_timeout_ms : ℕ
ack_timeout_ms = 100

-- The message that `ack` sends; its `data` is a null pointer.
abbrev pub ack_msg : Message
ack_msg = record { id = msg_id_ack; length = 0; payload = [] }

-- `rounds` and `bytes` are the fuel of the polling loop and of a poll.
module _ {D : Type 0} (dev : SerialDevice D) (rounds bytes : ℕ) where
  -- SerialSession::ack
  unfoldable pub ack : Exec (TestStandComm D) Bool
  ack = Transport.send_message dev ack_msg

  -- SerialSession::check_received_msg
  unfoldable pub check_received_msg : Exec (TestStandComm D) SerialResult
  unfolding ack
  check_received_msg = gets (λ c. c.received_msg.id) >>= λ id.
      if id == msg_id_ack || id == msg_id_nack
      then pure serial_err_wrong_msg
      else (ack >>= λ sent. if sent then pure serial_ok else pure serial_err_ack_failed)

  -- SerialSession::check_for_message
  unfoldable pub check_for_message : Exec (TestStandComm D) SerialResult
  check_for_message = Transport.check_for_message dev bytes >>= λ got.
      if got then check_received_msg else pure serial_ok_no_msg

  -- SerialSession::recv_message
  unfoldable pub recv_message : ℕ → Exec (TestStandComm D) SerialResult
  recv_message timeout_ms = gets (λ c. c.transport.msg_in_progress) >>= λ busy.
      if busy
      then pure serial_err_msg_in_progress
      else (Transport.recv_message dev rounds bytes timeout_ms >>= λ got.
          if got then check_received_msg else pure serial_err_timeout)

  -- SerialSession::send_message after the write: the wait for the ACK
  unfoldable pub await_ack : Exec (TestStandComm D) SerialResult
  await_ack = Transport.recv_message dev rounds bytes ack_timeout_ms >>= λ got.
      if got
      then (gets (λ c. c.received_msg.id) >>= λ id.
          if id == msg_id_ack then pure serial_ok else pure serial_err_no_ack)
      else pure serial_err_no_msg

  -- SerialSession::send_message
  unfoldable pub send_message : Message → Exec (TestStandComm D) SerialResult
  unfolding await_ack
  send_message msg = gets (λ c. c.transport.msg_in_progress) >>= λ busy.
      if busy
      then pure serial_err_msg_in_progress
      else (Transport.send_message dev msg >>= λ sent.
          if sent then await_ack else pure serial_err_send_failed)
