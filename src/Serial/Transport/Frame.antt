-- ===== src/Serial/Transport/Frame.antt =====
-- The bytes of a message on the wire, and the receiver on them.
use mpmt_test_stand.Prelude.{
  ℕ, suc, ◌+◌, ◌*◌, ◌%◌, ◌≤◌, ◌<◌, ◌≡◌, ◌≢◌, refl, true, false, List, [], ◌∷◌, ◌++◌, arith, length,
  sym, ◌∙◌, ◌==◌, All, set, take, length-set, if◌then◌else◌, suc-==-zero, take-set_end,
  append_assoc, append-nil,
}
use mpmt_test_stand.Serial.{
  Message, MessageSegment, seg_id, seg_length, seg_data, seg_crc, seg_end, msg_delim_start,
  msg_delim_end,
}
use mpmt_test_stand.Serial.Transport.{Receiver, recv_byte, reset}
use mpmt_test_stand.Serial.Transport.Feed.{feed, feed_step, feed_end}

-- What send_message writes, with the two bytes of the CRC field left open.
abbrev pub framed : ℕ → ℕ → ℕ → List ℕ → ℕ → List ℕ
framed id c0 c1 body n = msg_delim_start ∷ id ∷ n ∷ (body ++ c0 ∷ c1 ∷ msg_delim_end ∷ [])

-- `set` for each byte of a list, from an index on.
unfoldable pub write_at : ℕ → List ℕ → List ℕ → List ℕ
write_at i [] buf = buf
write_at i (x ∷ xs) buf = write_at (suc i) xs (set buf i x)

pub length-write_at : (i : ℕ) (xs buf : List ℕ) → length (write_at i xs buf) ≡ length buf
unfolding write_at
length-write_at i [] buf = refl
length-write_at i (x ∷ xs) buf = length-write_at (suc i) xs (set buf i x) ∙ length-set buf i x

take-write_at :
    (i n : ℕ) (xs buf : List ℕ)
    → i + length xs ≡ n
    → n ≤ length buf
    → take n (write_at i xs buf) ≡ take i buf ++ xs
unfolding write_at
take-write_at i n [] buf e h = let e' : n ≡ i = omega arith in rw e' (sym (append-nil (take i buf)))
take-write_at i n (x ∷ xs) buf e h =
    take-write_at (suc i) n xs (set buf i x) (omega arith) (omega (arith, length-set buf i x))
    ∙ rw (take-set_end buf i x (omega arith)) (append_assoc (take i buf) (x ∷ []) xs)

-- A receiver that waits for the start of a message.
abbrev pub idle : Message → Receiver
idle m = record { transport = reset; msg = m }

recv_byte-noise :
    (x : ℕ) (m : Message) → x ≢ msg_delim_start → recv_byte x (idle m) ≡ (false, idle m)
unfolding recv_byte
recv_byte-noise x m h = ground arith

pub feed-noise :
    (noise xs : List ℕ) (m : Message)
    → All (λ x. x ≢ msg_delim_start) noise
    → feed (noise ++ xs) (idle m) ≡ feed xs (idle m)
feed-noise [] xs m h = refl
feed-noise (x ∷ noise) xs m h =
    feed_step x (noise ++ xs) (idle m) (idle m) (recv_byte-noise x m h.0)
    ∙ feed-noise noise xs m h.1

abbrev in_segment : MessageSegment → ℕ → ℕ → ℕ → Message → Receiver
in_segment seg i n crc m = record {
  transport = record {
    pending_message = record { current_segment = seg; bytes_read = i; msg_length = n; crc = crc };
    msg_in_progress = true;
  };
  msg = m;
}

recv_data_more :
    (x i n : ℕ) (m : Message)
    → suc i < n
    → n < 256
    → recv_byte x (in_segment seg_data i n 0 m)
      ≡ (false, in_segment seg_data (suc i) n 0 (record m { payload = set m.payload i x }))
unfolding recv_byte
recv_data_more x i n m h k = ground arith

recv_data_last :
    (x i n : ℕ) (m : Message)
    → suc i ≡ n
    → n < 256
    → recv_byte x (in_segment seg_data i n 0 m)
      ≡ (false, in_segment seg_crc 0 n 0 (record m { payload = set m.payload i x }))
unfolding recv_byte
recv_data_last x i n m h k = ground arith

feed-body :
    (x : ℕ) (xs rest : List ℕ) (i n : ℕ) (m : Message)
    → i + suc (length xs) ≡ n
    → n < 256
    → feed (x ∷ xs ++ rest) (in_segment seg_data i n 0 m)
      ≡ feed rest (in_segment seg_crc 0 n 0 (record m { payload = write_at i (x ∷ xs) m.payload }))
unfolding write_at
feed-body x [] rest i n m e h = feed_step x rest _ _ (recv_data_last x i n m (omega arith) h)
feed-body x (y ∷ xs) rest i n m e h =
    feed_step x (y ∷ xs ++ rest) _ _ (recv_data_more x i n m (omega arith) h)
    ∙ feed-body y xs rest (suc i) n (record m { payload = set m.payload i x }) (omega arith) h

feed-trailer :
    (c0 c1 : ℕ) (rest : List ℕ) (n : ℕ) (m : Message)
    → feed (c0 ∷ c1 ∷ msg_delim_end ∷ rest) (in_segment seg_crc 0 n 0 m)
      ≡ record { done = true; receiver = idle m; rest = rest }
unfolding recv_byte
feed-trailer c0 c1 rest n m =
    feed_step c0 (c1 ∷ msg_delim_end ∷ rest) _ (in_segment seg_crc 1 n c0 m) (ground arith)
    ∙ feed_step c1 (msg_delim_end ∷ rest) _ (in_segment seg_end 0 n (c1 * 256 + c0 % 256) m)
        (ground arith)
    ∙ feed_end msg_delim_end rest _ (idle m) refl

feed-header :
    (id n : ℕ) (rest : List ℕ) (m : Message)
    → feed (msg_delim_start ∷ id ∷ n ∷ rest) (idle m)
      ≡ feed rest (
          in_segment
            (if n == 0 then seg_crc else seg_data)
            0
            n
            0
            (record m { id = id; length = n }))
unfolding recv_byte
feed-header id n rest m =
    feed_step msg_delim_start (id ∷ n ∷ rest) (idle m) (in_segment seg_id 0 0 0 m) refl
    ∙ feed_step id (n ∷ rest) _ (in_segment seg_length 0 0 0 (record m { id = id })) refl
    ∙ feed_step n rest _ _ refl

-- The message that a frame leaves: the bytes behind those of the body stay in the array.
abbrev pub received : ℕ → ℕ → List ℕ → Message → Message
received id n body m = record { id = id; length = n; payload = write_at 0 body m.payload }

feed-framed_length :
    (id c0 c1 : ℕ) (body rest : List ℕ) (m : Message)
    → length body < 256
    → feed (framed id c0 c1 body (length body) ++ rest) (idle m)
      ≡ record { done = true; receiver = idle (received id (length body) body m); rest = rest }
unfolding write_at
feed-framed_length id c0 c1 [] rest m h =
    feed-header id 0 (c0 ∷ c1 ∷ msg_delim_end ∷ rest) m
    ∙ feed-trailer c0 c1 rest 0 (record m { id = id; length = 0 })
feed-framed_length id c0 c1 (x ∷ xs) rest m h =
    let n = length (x ∷ xs) in
    let trailer = c0 ∷ c1 ∷ msg_delim_end ∷ [] in
    let named : Message = record m { id = id; length = n } in
    feed-header id n (((x ∷ xs) ++ trailer) ++ rest) m
    ∙ rw (suc-==-zero (length xs), append_assoc (x ∷ xs) trailer rest)
        (feed-body x xs (trailer ++ rest) 0 n named (omega arith) h
          ∙ feed-trailer c0 c1 rest n (record named { payload = write_at 0 (x ∷ xs) m.payload }))

pub feed-framed :
    (id c0 c1 n : ℕ) (body rest : List ℕ) (m : Message)
    → length body ≡ n
    → n < 256
    → feed (framed id c0 c1 body n ++ rest) (idle m)
      ≡ record { done = true; receiver = idle (received id n body m); rest = rest }
feed-framed id c0 c1 n body rest m e h =
    rw (← e) (feed-framed_length id c0 c1 body rest m (omega arith))

pub take-received :
    (id n : ℕ) (body : List ℕ) (m : Message)
    → length body ≡ n
    → n ≤ length m.payload
    → take n (received id n body m).payload ≡ body
take-received id n body m e h = take-write_at 0 n body m.payload (omega arith) h
