-- ===== src/Serial.antt =====
-- The serial protocol stack shared by the host and the controller (shared/TestStandComm): the data
-- of the layers. The layers themselves are the child modules, lowest first.
pub mod Device
pub mod Exec
pub mod Transport
pub mod Session
pub mod Codec
pub mod Comm
pub mod Controller
pub mod Host
pub mod Payloads
use mpmt_test_stand.Prelude.{ℕ, List, Bool, true, false}

-- Messages.h
abbrev pub msg_data_length_max : ℕ
msg_data_length_max = 0xff

abbrev pub msg_delim_start : ℕ
msg_delim_start = 0x7b

abbrev pub msg_delim_end : ℕ
msg_delim_end = 0x7d

abbrev pub msg_id_ack : ℕ
msg_id_ack = 0x01

abbrev pub msg_id_nack : ℕ
msg_id_nack = 0x02

abbrev pub msg_id_ping : ℕ
msg_id_ping = 0x10

abbrev pub msg_id_echo : ℕ
msg_id_echo = 0x11

abbrev pub msg_id_echoed : ℕ
msg_id_echoed = 0x12

-- `payload` is the array that the pointer `data` of the struct points to.
pub record Message : Type 0 where
  pub id : ℕ
  pub length : ℕ
  pub payload : List ℕ

-- SerialResult.h
pub data SerialResult : Type 0 where
  serial_ok : SerialResult
  serial_ok_no_msg : SerialResult
  serial_err_no_msg : SerialResult
  serial_err_timeout : SerialResult
  serial_err_msg_in_progress : SerialResult
  serial_err_send_failed : SerialResult
  serial_err_no_ack : SerialResult
  serial_err_ack_failed : SerialResult
  serial_err_wrong_msg : SerialResult
  serial_err_data_length : SerialResult
  serial_err_data_corrupt : SerialResult

-- `== SERIAL_OK`
abbrev pub is_ok : SerialResult → Bool
is_ok serial_ok = true
is_ok res = false

-- The state of the receiver (SerialTransport.h).
pub data MessageSegment : Type 0 where
  seg_start seg_id seg_length seg_data seg_crc seg_end : MessageSegment

pub record PendingMessage : Type 0 where
  pub current_segment : MessageSegment
  pub bytes_read : ℕ
  pub msg_length : ℕ
  pub crc : ℕ

pub record SerialTransport : Type 0 where
  pub pending_message : PendingMessage
  pub msg_in_progress : Bool
