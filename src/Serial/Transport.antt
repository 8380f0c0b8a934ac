-- ===== src/Serial/Transport.antt =====
-- SerialTransport.cxx: whole messages over the bytes of a device. The proofs are in the children.
pub mod Feed
pub mod Frame
pub mod Bounds
pub mod Valid
pub mod RoundTrip
pub mod Takes
pub mod Timeout
use mpmt_test_stand.Prelude.{
  ℕ, zero, suc, ◌+◌, ◌*◌, ◌/◌, ◌%◌, ◌≡◌, Bool, true, false, Option, none, some, List, [], ◌∷◌, ltb,
  ◌==◌, if◌then◌else◌, set, take, u8, u32, sub64,
}
use mpmt_test_stand.Serial.{
  Message, MessageSegment, seg_start, seg_id, seg_length, seg_data, seg_crc, seg_end,
  PendingMessage, SerialTransport, msg_delim_start, msg_delim_end,
}
use mpmt_test_stand.Serial.Device.{SerialDevice}
use mpmt_test_stand.Serial.Exec.{
  TestStandComm, Exec, out_of_fuel, pure, ◌>>=◌, ◌>>◌, modify, on_device,
}

-- SerialTransport::reset
unfoldable pub reset : SerialTransport
reset = record {
  pending_message = record { current_segment = seg_start; bytes_read = 0; msg_length = 0; crc = 0 };
  msg_in_progress = false;
}

-- What one byte changes: the receiver, and the message under construction.
pub record Receiver : Type 0 where
  pub transport : SerialTransport
  pub msg : Message

abbrev pending : Receiver → PendingMessage
pending r = r.transport.pending_message

abbrev with_pending : Receiver → PendingMessage → Receiver
with_pending r p = record r { transport = record r.transport { pending_message = p } }

-- Writes a byte of the little-endian uint16_t `crc`.
abbrev set_crc_byte : ℕ → ℕ → ℕ → ℕ
set_crc_byte crc i byte = if i == 0 then (crc / 256) * 256 + byte else byte * 256 + crc % 256

recv_start : ℕ → Receiver → Bool × Receiver
recv_start byte_in r =
    if byte_in == msg_delim_start
    then (
      false,
      record r {
        transport = record {
          pending_message = record (pending r) { current_segment = seg_id };
          msg_in_progress = true;
        };
      },
    )
    else (false, r)

recv_id : ℕ → Receiver → Bool × Receiver
recv_id byte_in r = (
  false,
  record (with_pending r (record (pending r) { current_segment = seg_length })) {
    msg = record r.msg { id = byte_in };
  },
)

recv_length : ℕ → Receiver → Bool × Receiver
recv_length byte_in r = (
  false,
  record (with_pending r (record (pending r) {
    msg_length = byte_in;
    bytes_read = 0;
    current_segment = if byte_in == 0 then seg_crc else seg_data;
  })) { msg = record r.msg { length = byte_in } },
)

-- `bytes_read` is a uint8_t
recv_data : ℕ → Receiver → Bool × Receiver
recv_data byte_in r =
    let p = pending r in
    let n = u8 (p.bytes_read + 1) in
    (
      false,
      record (with_pending r (
          if n == p.msg_length
          then record p { bytes_read = 0; current_segment = seg_crc }
          else record p { bytes_read = n })) {
            msg = record r.msg { payload = set r.msg.payload p.bytes_read byte_in };
          },
    )

recv_crc : ℕ → Receiver → Bool × Receiver
recv_crc byte_in r =
    let p = pending r in
    let n = u8 (p.bytes_read + 1) in
    let crc = set_crc_byte p.crc p.bytes_read byte_in in
    (
      false,
      with_pending r (
          if n == 2
          then record p { crc = crc; bytes_read = 0; current_segment = seg_end }
          else record p { crc = crc; bytes_read = n }),
    )

recv_end : ℕ → Receiver → Bool × Receiver
unfolding reset
recv_end byte_in r = (byte_in == msg_delim_end, record r { transport = reset })

recv_segment : MessageSegment → ℕ → Receiver → Bool × Receiver
unfolding recv_start recv_id recv_length recv_data recv_crc recv_end
recv_segment seg_start byte_in r = recv_start byte_in r
recv_segment seg_id byte_in r = recv_id byte_in r
recv_segment seg_length byte_in r = recv_length byte_in r
recv_segment seg_data byte_in r = recv_data byte_in r
recv_segment seg_crc byte_in r = recv_crc byte_in r
recv_segment seg_end byte_in r = recv_end byte_in r

-- The `switch` of the loop, at one byte: true where the loop returns with a message.
unfoldable pub recv_byte : ℕ → Receiver → Bool × Receiver
unfolding recv_segment
recv_byte byte_in r = recv_segment r.transport.pending_message.current_segment byte_in r

abbrev pub receiver : {D : Type 0} → TestStandComm D → Receiver
receiver c = record { transport = c.transport; msg = c.received_msg }

abbrev pub put_receiver : {D : Type 0} → TestStandComm D → Receiver → TestStandComm D
put_receiver c r = record c { transport = r.transport; received_msg = r.msg }

-- The buffers that send_message writes, in order. The CRC is not computed: its two bytes are 0.
abbrev pub frame_writes : Message → List (List ℕ)
frame_writes msg =
    (msg_delim_start ∷ [])
    ∷ (msg.id ∷ [])
    ∷ (msg.length ∷ [])
    ∷ take msg.length msg.payload
    ∷ (0 ∷ [])
    ∷ (0 ∷ [])
    ∷ (msg_delim_end ∷ [])
    ∷ []

module _ {D : Type 0} (dev : SerialDevice D) where
  -- The body of the loop on a byte that was read.
  take_byte : ℕ → Exec (TestStandComm D) Bool
  take_byte byte_in c =
      let (done, r) = recv_byte byte_in (receiver c) in some (done, put_receiver c r)

  -- The rest of a round, by what the read gave; `again` is the next round.
  on_read : Exec (TestStandComm D) Bool → Option ℕ → Exec (TestStandComm D) Bool
  unfolding take_byte
  on_read again none = pure false
  on_read again (some byte_in) = take_byte byte_in >>= λ done. if done then pure true else again

  -- SerialTransport::check_for_message. The fuel bounds the bytes read by one call.
  unfoldable pub check_for_message : ℕ → Exec (TestStandComm D) Bool
  unfolding on_read
  check_for_message zero = out_of_fuel
  check_for_message (suc fuel) = on_device dev.ser_available >>= λ n.
      if n == 0 then pure false else (on_device dev.ser_read >>= on_read (check_for_message fuel))

  -- `time_start` is the uint32_t that the uint64_t timestamp was cut to; the difference is taken on
  -- uint64_t. One round polls once; `bytes` is the fuel of each poll.
  unfoldable pub recv_loop : ℕ → ℕ → ℕ → ℕ → Exec (TestStandComm D) Bool
  unfolding reset
  recv_loop zero bytes time_start timeout_ms = out_of_fuel
  recv_loop (suc rounds) bytes time_start timeout_ms = check_for_message bytes >>= λ got.
      if got
      then pure true
      else on_device dev.platform_millis >>= λ now.
          if ltb timeout_ms (sub64 now time_start)
          then (modify (λ c. record c { transport = reset }) >>= λ _. pure false)
          else recv_loop rounds bytes time_start timeout_ms

  -- SerialTransport::recv_message
  unfoldable pub recv_message : ℕ → ℕ → ℕ → Exec (TestStandComm D) Bool
  recv_message rounds bytes timeout_ms =
      on_device dev.platform_millis >>= λ now. recv_loop rounds bytes (u32 now) timeout_ms

  -- The writes of send_message in order, up to the first that fails.
  write_all : List (List ℕ) → Exec (TestStandComm D) Bool
  write_all [] = pure true
  write_all (buf ∷ rest) =
      on_device (λ d. dev.ser_write d buf) >>= λ sent. if sent then write_all rest else pure false

  -- SerialTransport::send_message
  unfoldable pub send_message : Message → Exec (TestStandComm D) Bool
  unfolding write_all
  send_message msg = write_all (frame_writes msg)
