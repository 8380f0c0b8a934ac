-- ===== src/Examples/Serial.antt =====
-- The serial stack on concrete devices.
use mpmt_test_stand.Prelude.{
  ℕ, suc, ◌+◌, ◌*◌, ◌<◌, ◌≤◌, ◌≡◌, refl, true, false, some, List, [], ◌∷◌, arith, replicate, take,
  All, zero,
}
use mpmt_test_stand.Serial.{Message, msg_delim_start, msg_id_ping, seg_start, seg_data}
use mpmt_test_stand.Serial.Exec.{TestStandComm}
use mpmt_test_stand.Serial.Transport.{reset, Receiver, receiver, recv_byte}
use mpmt_test_stand.Serial.Transport
use mpmt_test_stand.Serial.Transport.Frame.{framed}
use mpmt_test_stand.Serial.Transport.Bounds.{
  IsValid, recv_byte-IsValid, recv_bytes, segment, resync_lem,
}
use mpmt_test_stand.Serial.Transport.RoundTrip.{
  wire, PolledMessage, check_for_message-framed, send-check_for_message,
}
use mpmt_test_stand.Serial.Transport.Timeout.{Returns, recv_message-Returns, recv_message-overflow}
use mpmt_test_stand.Serial.Session.{ack_msg}
use mpmt_test_stand.Serial.Session
use mpmt_test_stand.Serial.Session.Acks.{
  Acked, Answered, send_message-Acked, check_for_message-Answered,
}
use mpmt_test_stand.Serial.Session.Exchange.{Exchanged, send_message-Exchanged}
use mpmt_test_stand.Examples.Wire.{
  Wire, wire_device, wire_buffer, wire_device-IsBuffered, wire_device-IsWriter, clock_us,
  silent_line, silent_buffer, silent_line-IsBuffered, silent_line-IsClocked,
}

abbrev zeros : List ℕ
zeros = replicate 255 0

abbrev comm_on : {D : Type 0} → D → TestStandComm D
comm_on d = record {
  device = d;
  transport = record {
    pending_message = record {
      current_segment = seg_start;
      bytes_read = 0;
      msg_length = 0;
      crc = 0;
    };
    msg_in_progress = false;
  };
  received_msg = record { id = 0; length = 0; payload = zeros };
  send_buf = zeros;
}

abbrev on_wire : List ℕ → List ℕ → TestStandComm Wire
on_wire rx tx = comm_on (record { rx = rx; tx = tx })

-- A status message of the controller.
abbrev status_msg : Message
status_msg = record { id = 0x81; length = 1; payload = 2 ∷ [] }

-- Its frame after a byte of noise, and with a CRC that is not 0.
abbrev noisy : List ℕ
noisy = 9 ∷ wire status_msg

send-check_for_message_example :
    PolledMessage wire_device wire_buffer wire_device-IsBuffered
      (on_wire noisy [])
      status_msg
      []
      (Transport.check_for_message wire_device 20 (on_wire noisy []))
unfolding reset Transport.send_message
send-check_for_message_example =
    send-check_for_message wire_device wire_buffer wire_device-IsWriter wire_device wire_buffer
      wire_device-IsBuffered status_msg (on_wire [] []) (on_wire [] (wire status_msg))
      (on_wire noisy []) (wire status_msg) (9 ∷ []) [] 20 refl refl (omega arith) (omega arith) refl
      refl ((λ e. cc), tt) refl (omega arith)

abbrev corrupted : List ℕ
corrupted = framed 0x81 7 7 (2 ∷ []) 1

check_for_message-framed_example :
    PolledMessage wire_device wire_buffer wire_device-IsBuffered
      (on_wire corrupted [])
      status_msg
      []
      (Transport.check_for_message wire_device 20 (on_wire corrupted []))
unfolding reset
check_for_message-framed_example =
    check_for_message-framed wire_device wire_buffer wire_device-IsBuffered [] [] 7 7 20 status_msg
      (on_wire corrupted []) refl refl (omega arith) (omega arith) tt refl (omega arith)

recv_message-Returns_example :
    Returns silent_line clock_us silent_line-IsClocked silent_buffer silent_line-IsBuffered 1
      (λ d. omega arith)
      (Transport.recv_message silent_line (suc (1000 * (100 + 1))) 1 100 (comm_on 5))
recv_message-Returns_example =
    recv_message-Returns silent_line clock_us silent_line-IsClocked silent_buffer
      silent_line-IsBuffered 1 (λ d. omega arith) 100 (comm_on 5) (omega arith) (omega arith)

recv_message-overflow_example :
    Transport.recv_message silent_line (suc 5) 1 100 (comm_on 4294967296000)
    ≡ some (false, record (comm_on 4294967296002) { transport = reset })
unfolding Transport.check_for_message
recv_message-overflow_example =
    recv_message-overflow silent_line clock_us silent_line-IsClocked 5 1 100 (comm_on 4294967296000)
      (comm_on 4294967296001) (omega arith) (omega arith) refl

abbrev ping_msg : Message
ping_msg = record { id = msg_id_ping; length = 0; payload = [] }

-- The sender after an ACK.
abbrev acked : TestStandComm Wire
acked = record (on_wire [] (wire ping_msg)) {
  received_msg = record { id = 1; length = 0; payload = zeros };
}

send_message-Acked_example :
    Acked wire_device wire_buffer 1 20 ping_msg (on_wire (wire ack_msg) []) acked
unfolding reset Session.send_message Session.await_ack Transport.send_message Transport.recv_message
    Transport.check_for_message Transport.recv_loop Transport.recv_byte
send_message-Acked_example =
    send_message-Acked wire_device wire_buffer 1 20 wire_device-IsWriter ping_msg
      (on_wire (wire ack_msg) []) acked refl

-- The receiver after it answered.
abbrev answered : TestStandComm Wire
answered = record (on_wire [] (wire ack_msg)) {
  received_msg = record { id = 0x81; length = 1; payload = 2 ∷ replicate 254 0 };
}

check_for_message-Answered_example :
    (c1 : TestStandComm Wire) × (Transport.check_for_message wire_device 20 (on_wire noisy [])
      ≡ some (true, c1))
    × Answered wire_device wire_buffer 1 20 c1 answered
unfolding reset Session.check_for_message Session.check_received_msg Transport.send_message
    Transport.check_for_message Transport.recv_byte
check_for_message-Answered_example =
    check_for_message-Answered wire_device wire_buffer 1 20 wire_device-IsWriter (on_wire noisy [])
      answered refl

send_message-Exchanged_example :
    Exchanged wire_buffer ack_msg []
      (Session.send_message wire_device 1 20 ping_msg (on_wire (wire ack_msg) []))
unfolding reset Transport.send_message
send_message-Exchanged_example =
    send_message-Exchanged wire_device wire_buffer wire_device-IsBuffered wire_device-IsWriter 0 20
      ping_msg ack_msg (on_wire (wire ack_msg) []) (on_wire (wire ack_msg) (wire ping_msg)) [] []
      refl refl refl (omega arith) (omega arith) tt refl (omega arith)

-- In the middle of a message of 200 bytes.
abbrev mid_message : Receiver
mid_message = record {
  transport = record {
    pending_message = record {
      current_segment = seg_data;
      bytes_read = 199;
      msg_length = 200;
      crc = 0;
    };
    msg_in_progress = true;
  };
  msg = record { id = 0x81; length = 200; payload = zeros };
}

mid_message-IsValid : IsValid mid_message
mid_message-IsValid = record {
  counted = (omega arith, omega arith);
  in_progress = refl;
  room = refl;
}

recv_byte-IsValid_example : IsValid (recv_byte 7 mid_message).1
recv_byte-IsValid_example = recv_byte-IsValid 7 mid_message (omega arith) mid_message-IsValid

All-starts : (n : ℕ) → All (λ x. x < 256) (replicate n msg_delim_start)
All-starts zero = tt
All-starts (suc n) = (omega arith, All-starts n)

resync_lem_example :
    (k : ℕ) × (k ≤ 260)
    × (segment (recv_bytes (take k (replicate 260 msg_delim_start)) mid_message) ≡ seg_start)
resync_lem_example =
    resync_lem (replicate 260 msg_delim_start) mid_message (All-starts 260) mid_message-IsValid
      (omega arith)
