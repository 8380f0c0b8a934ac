-- ===== src/Serial/Comm/Checks.antt =====
-- What a success of the checked exchanges says.
use mpmt_test_stand.Prelude.{
  ℕ, zero, suc, ◌+◌, ◌<◌, ◌≤◌, ◌≡◌, refl, true, Option, none, some, List, arith, get_or,
  if◌then◌else◌, ◌==◌, dec_lt,
}
use mpmt_test_stand.Serial.{
  msg_data_length_max, msg_id_echoed, SerialResult, serial_ok, serial_err_wrong_msg,
  serial_err_data_length, serial_err_data_corrupt,
}
use mpmt_test_stand.Serial.Device.{SerialDevice}
use mpmt_test_stand.Serial.Exec.{TestStandComm, Exec, pure, gets, ◌>>=◌}
use mpmt_test_stand.Serial.Session
use mpmt_test_stand.Serial.Comm.{if_ok, fill_counting, is_counting}
use mpmt_test_stand.Serial.Comm

module _ {S : Type 0} where
  -- A success at the end of a chain is a success of its first part, and of the rest after it.
  pub if_ok-inv :
      (r : Option (SerialResult × S)) (next : Exec S SerialResult) (s' : S)
      → elim r as (λ _. Option (SerialResult × S)) [
        | none ↦ none
        | some (res, s) ↦ if_ok res next s
      ]
        ≡ some (serial_ok, s')
      → (s : S) × (r ≡ some (serial_ok, s)) × (next s ≡ some (serial_ok, s'))
  if_ok-inv none next s' e = cc
  if_ok-inv (some (serial_ok, s)) next s' e = (s, refl, e)
  if_ok-inv (some (_, s)) next s' e = ground arith

is_counting_lem :
    (n i : ℕ) (payload : List ℕ)
    → is_counting n i payload ≡ true
    → (k : ℕ) → i ≤ k
    → k < i + n
    → get_or payload k 0 ≡ k
unfolding is_counting
is_counting_lem zero i payload e k l h = omega arith
is_counting_lem (suc n) i payload e k l h =
    let here : get_or payload i 0 ≡ i = ground arith in
    let rest : is_counting n (i + 1) payload ≡ true = ground arith in
    elim (dec_lt i k) [
      | yes later ↦ is_counting_lem n (i + 1) payload rest k (omega arith) (omega arith)
      | no same ↦ let at : k ≡ i = omega arith in rw at here
    ]

module _ {D : Type 0} (dev : SerialDevice D) (rounds bytes : ℕ) where
  right_message :
      (id len : ℕ) (c c' : TestStandComm D)
      → (gets (λ c. c.received_msg) >>= λ msg.
            if msg.id == id
            then (if msg.length == len then pure serial_ok else pure serial_err_data_length)
            else pure serial_err_wrong_msg)
          c
        ≡ some (serial_ok, c')
      → (c' ≡ c) × (c.received_msg.id ≡ id) × (c.received_msg.length ≡ len)
  right_message id len c c' e = ground arith

  -- When the receive that expects an identifier and a length succeeds, the receive of the session
  -- has succeeded with the same state, and the received message has that identifier and that
  -- length.
  pub recv_message-ok :
      (id len timeout : ℕ) (c c' : TestStandComm D)
      → Comm.recv_message dev rounds bytes id len timeout c ≡ some (serial_ok, c')
      → (Session.recv_message dev rounds bytes timeout c ≡ some (serial_ok, c'))
        × (c'.received_msg.id ≡ id)
        × (c'.received_msg.length ≡ len)
  unfolding Comm.recv_message
  recv_message-ok id len timeout c c' e =
      let (c1, got, rest) = if_ok-inv (Session.recv_message dev rounds bytes timeout c) _ c' e in
      let (same, i, l) = right_message id len c1 c' rest in rw same (got, i, l)

  counted :
      (c c' : TestStandComm D)
      → (gets (λ c. c.received_msg.payload) >>= λ payload.
            if is_counting msg_data_length_max 0 payload
            then pure serial_ok
            else pure serial_err_data_corrupt)
          c
        ≡ some (serial_ok, c')
      → (c' ≡ c) × (is_counting msg_data_length_max 0 c.received_msg.payload ≡ true)
  counted c c' e = ground arith

  -- A link check that succeeds sent an echo that was acknowledged, and then received a message with the
  -- identifier ECHOED, the length 255 and the bytes 0 to 254 in order.
  pub link_check_lem :
      (timeout : ℕ) (c c' : TestStandComm D)
      → Comm.link_check dev rounds bytes timeout c ≡ some (serial_ok, c')
      → let buf = fill_counting msg_data_length_max 0 c.send_buf in
        (c1 : TestStandComm D) × (Comm.echo dev rounds bytes buf msg_data_length_max
            (record c { send_buf = buf })
          ≡ some (serial_ok, c1))
        × (Session.recv_message dev rounds bytes timeout c1 ≡ some (serial_ok, c'))
        × (c'.received_msg.id ≡ msg_id_echoed)
        × (c'.received_msg.length ≡ msg_data_length_max)
        × ((k : ℕ) → k < msg_data_length_max → get_or c'.received_msg.payload k 0 ≡ k)
  unfolding Comm.link_check
  link_check_lem timeout c c' e =
      let buf = fill_counting msg_data_length_max 0 c.send_buf in
      let (c1, sent, rest) =
        if_ok-inv (Comm.echo dev rounds bytes buf msg_data_length_max (record c { send_buf = buf }))
          _ c' e in
      let (c2, got, check) =
        if_ok-inv (Comm.recv_message dev rounds bytes msg_id_echoed msg_data_length_max timeout c1)
          _ c' rest in
      let (same, good) = counted c2 c' check in
      let (received, id, len) =
        recv_message-ok msg_id_echoed msg_data_length_max timeout c1 c2 got in
      rw same (
        c1,
        sent,
        received,
        id,
        len,
        λ k h.
            is_counting_lem msg_data_length_max 0 c2.received_msg.payload good k (omega arith)
              (omega arith),
      )
