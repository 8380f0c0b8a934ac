-- ===== src/Terminal/Waiting.antt =====
-- What the terminal waits for when it connects.
use mpmt_test_stand.Prelude.{
  ℕ, zero, suc, ◌≡◌, ◌↔◌, refl, sym, ap, ◌∙◌, true, false, some, ◌==◌, ◌&&◌, if◌then◌else◌,
  Bool-cases, inl, inr, arith,
}
use mpmt_test_stand.Serial.{SerialResult, serial_ok, is_ok, msg_id_ping}
use mpmt_test_stand.Serial.Device.{SerialDevice}
use mpmt_test_stand.Serial.Exec.{TestStandComm, Exec, pure, gets, bind-inv, bind-some, ◌>>=◌}
use mpmt_test_stand.Serial.Comm
use mpmt_test_stand.Terminal.Handlers.{wait_for_arduino}

-- A run of polls of which the last one, and no other, reports a message that is a ping.
pub data WaitsForPing {D : Type 0} (dev : SerialDevice D) (rounds bytes : ℕ)
    : TestStandComm D → TestStandComm D → Type 0 where
  arrived :
      {c c' : TestStandComm D}
      → Comm.check_for_message dev rounds bytes c ≡ some (serial_ok, c')
      → c'.received_msg.id ≡ msg_id_ping
      → WaitsForPing dev rounds bytes c c'
  not_yet :
      {c c1 c' : TestStandComm D} {res : SerialResult}
      → Comm.check_for_message dev rounds bytes c ≡ some (res, c1)
      → (is_ok res && c1.received_msg.id == msg_id_ping) ≡ false
      → WaitsForPing dev rounds bytes c1 c'
      → WaitsForPing dev rounds bytes c c'

is_ping-true :
    (res : SerialResult) (id : ℕ)
    → (is_ok res && id == msg_id_ping) ≡ true
    → (res ≡ serial_ok) × (id ≡ msg_id_ping)
is_ping-true serial_ok id e = (refl, ground arith)
is_ping-true _ id e = cc

module _ {D : Type 0} (dev : SerialDevice D) (rounds bytes : ℕ) where
  -- The loop after a poll.
  abbrev after_poll : ℕ → SerialResult → Exec (TestStandComm D) (Unit {0})
  after_poll n res = gets (λ c. c.received_msg.id) >>= λ id.
      if is_ok res && id == msg_id_ping then pure tt else wait_for_arduino dev rounds bytes n

  wait_for_arduino-waits :
      (n : ℕ) (c c' : TestStandComm D)
      → wait_for_arduino dev rounds bytes n c ≡ some (tt, c')
      → WaitsForPing dev rounds bytes c c'
  unfolding wait_for_arduino
  wait_for_arduino-waits zero c c' e = cc
  wait_for_arduino-waits (suc n) c c' e =
      let (res, c1, poll, rest) =
        bind-inv (Comm.check_for_message dev rounds bytes) (after_poll n) c (tt, c') e in
      elim (Bool-cases (is_ok res && c1.received_msg.id == msg_id_ping)) [
        | inl ping ↦
            (let same : c1 ≡ c' = (let run = rw ping at rest in cc) in
              let (ok, id) = is_ping-true res c1.received_msg.id ping in
              arrived (poll ∙ ap (λ r. some (r, c1)) ok ∙ ap (λ d. some (serial_ok, d)) same)
                (ap (λ d. d.received_msg.id) (sym same) ∙ id))
        | inr other ↦
            (let run = rw other at rest in not_yet poll other (wait_for_arduino-waits n c1 c' run))
      ]

  waits-wait_for_arduino :
      (c c' : TestStandComm D)
      → WaitsForPing dev rounds bytes c c'
      → (n : ℕ) × (wait_for_arduino dev rounds bytes n c ≡ some (tt, c'))
  unfolding wait_for_arduino
  waits-wait_for_arduino c c' (arrived poll id) = (
    1,
    bind-some (Comm.check_for_message dev rounds bytes) (after_poll 0) {s = c} poll ∙ rw id refl,
  )
  waits-wait_for_arduino c c' (not_yet poll other rest) =
      let (n, run) = waits-wait_for_arduino _ c' rest in
      (
        suc n,
        bind-some (Comm.check_for_message dev rounds bytes) (after_poll n) {s = c} poll
            ∙ rw other run,
      )

  -- With some number of polls the wait for the controller returns in a state exactly if a sequence
  -- of polls leads to that state of which the last one, and none before it, reports a message that
  -- is a ping.
  pub wait_for_arduino_lem :
      (c c' : TestStandComm D)
      → ((n : ℕ) × (wait_for_arduino dev rounds bytes n c ≡ some (tt, c')))
        ↔ WaitsForPing dev rounds bytes c c'
  wait_for_arduino_lem c c' =
      (λ (n, e). wait_for_arduino-waits n c c' e, waits-wait_for_arduino c c')
