-- ===== src/Serial/Comm.antt =====
-- TestStandComm.cxx: exchanges that both sides can have.
pub mod Checks
use mpmt_test_stand.Prelude.{
  ℕ, zero, suc, ◌+◌, Bool, true, false, List, [], ◌==◌, if◌then◌else◌, set, get_or, u8,
}
use mpmt_test_stand.Serial.{
  msg_data_length_max, msg_id_ping, msg_id_echo, msg_id_echoed, SerialResult, serial_ok,
  serial_err_wrong_msg, serial_err_data_length, serial_err_data_corrupt,
}
use mpmt_test_stand.Serial.Device.{SerialDevice}
use mpmt_test_stand.Serial.Exec.{TestStandComm, Exec, pure, gets, modify, ◌>>=◌}
use mpmt_test_stand.Serial.Session

-- `if (res != SERIAL_OK) return res;`
abbrev pub if_ok : {S : Type 0} → SerialResult → Exec S SerialResult → Exec S SerialResult
if_ok serial_ok next = next
if_ok res next = pure res

-- send_buf[i] = i for the `n` indices from `i` on
pub fill_counting : ℕ → ℕ → List ℕ → List ℕ
fill_counting zero i buf = buf
fill_counting (suc n) i buf = fill_counting n (i + 1) (set buf i (u8 i))

-- data[i] == i for the `n` indices from `i` on
pub is_counting : ℕ → ℕ → List ℕ → Bool
is_counting zero i payload = true
is_counting (suc n) i payload =
    let rest = is_counting n (i + 1) payload in if get_or payload i 0 == i then rest else false

module _ {D : Type 0} (dev : SerialDevice D) (rounds bytes : ℕ) where
  unfoldable pub send_basic_msg : ℕ → Exec (TestStandComm D) SerialResult
  send_basic_msg id =
      Session.send_message dev rounds bytes (record { id = id; length = 0; payload = [] })

  unfoldable pub ping : Exec (TestStandComm D) SerialResult
  unfolding send_basic_msg
  ping = send_basic_msg msg_id_ping

  unfoldable pub echo : List ℕ → ℕ → Exec (TestStandComm D) SerialResult
  echo payload length =
      Session.send_message dev rounds bytes
        (record { id = msg_id_echo; length = length; payload = payload })

  -- The message's data pointer is the receive buffer itself, which is sent before the reply arrives.
  unfoldable pub recv_echo : Exec (TestStandComm D) SerialResult
  recv_echo = gets (λ c. c.received_msg) >>= λ msg.
      Session.send_message dev rounds bytes
        (record { id = msg_id_echoed; length = msg.length; payload = msg.payload })

  unfoldable pub check_for_message : Exec (TestStandComm D) SerialResult
  check_for_message = Session.check_for_message dev rounds bytes

  unfoldable pub recv_message : ℕ → ℕ → ℕ → Exec (TestStandComm D) SerialResult
  recv_message expect_id expect_length timeout_ms =
      Session.recv_message dev rounds bytes timeout_ms >>= λ res. if_ok res (
        gets (λ c. c.received_msg) >>= λ msg.
        if msg.id == expect_id
        then (if msg.length == expect_length then pure serial_ok else pure serial_err_data_length)
        else pure serial_err_wrong_msg)

  unfoldable pub link_check : ℕ → Exec (TestStandComm D) SerialResult
  unfolding fill_counting is_counting echo recv_message
  link_check timeout_ms =
      modify (λ c. record c { send_buf = fill_counting msg_data_length_max 0 c.send_buf }) >>= λ _.
      gets (λ c. c.send_buf) >>= λ buf. echo buf msg_data_length_max >>= λ res. if_ok res (
        recv_message msg_id_echoed msg_data_length_max timeout_ms >>= λ res'. if_ok res' (
          gets (λ c. c.received_msg.payload) >>= λ payload.
          if is_counting msg_data_length_max 0 payload
          then pure serial_ok
          else pure serial_err_data_corrupt))
