-- ===== src/Serial/Transport/Bounds.antt =====
-- The receiver's state between two bytes: it never indexes outside its arrays, and it always finds
-- back to the start of a message.
use mpmt_test_stand.Prelude.{
  ℕ, zero, suc, ◌+◌, ◌-◌, ◌≤◌, ◌<◌, ◌≡◌, refl, Bool, true, false, List, [], ◌∷◌, arith, length, All,
  take, length-set, dec_lt,
}
use mpmt_test_stand.Serial.{
  Message, MessageSegment, PendingMessage, seg_start, seg_id, seg_length, seg_data, seg_crc,
  seg_end, msg_data_length_max,
}
use mpmt_test_stand.Serial.Transport.{Receiver, recv_byte, reset}

abbrev pub is_busy : MessageSegment → Bool
is_busy seg_start = false
is_busy _ = true

-- What is known of the counters in each segment.
abbrev pub Counted : MessageSegment → PendingMessage → Type 0
Counted seg_start p = (p.bytes_read ≡ 0) × (p.crc ≡ 0)
Counted seg_data p = (p.bytes_read < p.msg_length) × (p.msg_length < 256)
Counted seg_crc p = (p.bytes_read < 2) × (p.msg_length < 256)
Counted _ p = Unit {0}

pub record IsValid (r : Receiver) : Type 0 where
  pub counted : Counted r.transport.pending_message.current_segment r.transport.pending_message
  pub in_progress :
      r.transport.msg_in_progress ≡ is_busy r.transport.pending_message.current_segment
  pub room : length r.msg.payload ≡ msg_data_length_max

-- Any byte keeps the receiver valid: within the data of a message the next index is below the
-- length that was announced, within the CRC it is below 2, the buffer keeps its 255 bytes, and the
-- flag of a message in progress is set exactly outside of the start segment.
pub recv_byte-IsValid : (x : ℕ) (r : Receiver) → x < 256 → IsValid r → IsValid (recv_byte x r).1
unfolding recv_byte
recv_byte-IsValid x r h v =
    ground (arith, length-set r.msg.payload r.transport.pending_message.bytes_read x)

pub reset-IsValid :
    (m : Message)
    → length m.payload ≡ msg_data_length_max
    → IsValid (record { transport = reset; msg = m })
unfolding reset
reset-IsValid m h = record { counted = (refl, refl); in_progress = refl; room = h }

-- An upper bound on the bytes until the receiver is at a start again.
abbrev pub left : Receiver → ℕ
left r =
    let p = r.transport.pending_message in
    elim p.current_segment [
      | seg_start ↦ 0
      | seg_id ↦ 260
      | seg_length ↦ 259
      | seg_data ↦ p.msg_length - p.bytes_read + 3
      | seg_crc ↦ 3 - p.bytes_read
      | seg_end ↦ 1
    ]

-- In a message, each byte brings the receiver nearer to a start.
left-recv_byte :
    (x : ℕ) (r : Receiver) → x < 256 → IsValid r → 0 < left r → left (recv_byte x r).1 < left r
unfolding recv_byte
left-recv_byte x r h v k = ground arith

-- The receiver after some bytes, whatever messages they complete.
unfoldable pub recv_bytes : List ℕ → Receiver → Receiver
recv_bytes [] r = r
recv_bytes (x ∷ xs) r = recv_bytes xs (recv_byte x r).1

abbrev pub segment : Receiver → MessageSegment
segment r = r.transport.pending_message.current_segment

left-zero : (r : Receiver) → IsValid r → left r ≡ 0 → segment r ≡ seg_start
left-zero r v h = ground arith

left-le : (r : Receiver) → IsValid r → left r ≤ 260
left-le r v = ground arith

recv_bytes_settles :
    (n : ℕ) (xs : List ℕ) (r : Receiver)
    → All (λ x. x < 256) xs
    → IsValid r
    → left r ≤ n
    → n ≤ length xs
    → (k : ℕ) × (k ≤ n) × (segment (recv_bytes (take k xs) r) ≡ seg_start)
unfolding recv_bytes
recv_bytes_settles zero xs r b v h l = (0, omega arith, left-zero r v (omega arith))
recv_bytes_settles (suc n) [] r b v h l = elim l [ ]
recv_bytes_settles (suc n) (x ∷ xs) r b v h l = elim (dec_lt 0 (left r)) [
  | no at_start ↦ (0, omega arith, left-zero r v (omega arith))
  | yes busy ↦
      let nearer = left-recv_byte x r b.0 v busy in
      let (k, few, settled) =
        recv_bytes_settles n xs (recv_byte x r).1 b.1 (recv_byte-IsValid x r b.0 v) (omega arith)
          (omega arith) in
      (suc k, omega arith, settled)
]

-- From any valid state, at most 260 bytes, whatever they are, bring the receiver back to the start
-- of a message.
pub resync_lem :
    (xs : List ℕ) (r : Receiver)
    → All (λ x. x < 256) xs
    → IsValid r
    → 260 ≤ length xs
    → (k : ℕ) × (k ≤ 260) × (segment (recv_bytes (take k xs) r) ≡ seg_start)
resync_lem xs r b v l = recv_bytes_settles 260 xs r b v (left-le r v) l
