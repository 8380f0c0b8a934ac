-- ===== src/Serial/Transport/Feed.antt =====
-- The receiver as a function of the bytes that have arrived, and check_for_message against it.
use mpmt_test_stand.Prelude.{
  ℕ, zero, suc, ◌<◌, ◌≡◌, refl, Bool, true, false, Option, some, List, [], ◌∷◌, arith, length, ◌∙◌,
  ap, if◌then◌else◌, Bool-cases, inl, inr, suc-==-zero, if_app,
}
use mpmt_test_stand.Serial.Device.{SerialDevice, Buffer, IsBuffered}
use mpmt_test_stand.Serial.Exec.{TestStandComm}
use mpmt_test_stand.Serial.Transport.{
  Receiver, recv_byte, receiver, put_receiver, check_for_message,
}

pub record Fed : Type 0 where
  pub done : Bool
  pub receiver : Receiver
  pub rest : List ℕ

-- Bytes are taken up to the end of the first message.
pub feed : List ℕ → Receiver → Fed
feed [] r = record { done = false; receiver = r; rest = [] }
feed (x ∷ xs) r =
    let (done, r') = recv_byte x r in
    elim done [ true ↦ record { done = true; receiver = r'; rest = xs } | false ↦ feed xs r' ]

pub feed_more :
    (x : ℕ) (xs : List ℕ) (r : Receiver)
    → (recv_byte x r).0 ≡ false
    → feed (x ∷ xs) r ≡ feed xs (recv_byte x r).1
unfolding feed
feed_more x xs r e = ground arith

pub feed_done :
    (x : ℕ) (xs : List ℕ) (r : Receiver)
    → (recv_byte x r).0 ≡ true
    → feed (x ∷ xs) r ≡ record { done = true; receiver = (recv_byte x r).1; rest = xs }
unfolding feed
feed_done x xs r e = ground arith

-- The same, with the receiver after the byte named.
pub feed_step :
    (x : ℕ) (xs : List ℕ) (r r' : Receiver)
    → recv_byte x r ≡ (false, r')
    → feed (x ∷ xs) r ≡ feed xs r'
feed_step x xs r r' e = feed_more x xs r (ap (λ p. p.0) e) ∙ ap (λ p. feed xs p.1) e

pub feed_end :
    (x : ℕ) (xs : List ℕ) (r r' : Receiver)
    → recv_byte x r ≡ (true, r')
    → feed (x ∷ xs) r ≡ record { done = true; receiver = r'; rest = xs }
feed_end x xs r r' e =
    feed_done x xs r (ap (λ p. p.0) e)
    ∙ ap (λ p. let fed : Fed = record { done = true; receiver = p.1; rest = xs } in fed) e

feed-nil : (r : Receiver) → feed [] r ≡ record { done = false; receiver = r; rest = [] }
unfolding feed
feed-nil r = refl

module _ {D : Type 0} (dev : SerialDevice D) (b : Buffer D) (laws : IsBuffered dev b) where
  -- The outcome of a poll of `c`: what `feed` says of the bytes that were waiting.
  abbrev pub Polled : TestStandComm D → List ℕ → Option (Bool × TestStandComm D) → Type 0
  Polled c xs out =
      let fed = feed xs (receiver c) in
      (d : D) × (out ≡ some (fed.done, put_receiver (record c { device = d }) fed.receiver))
      × (b.rx d ≡ fed.rest)
      × (b.tx d ≡ b.tx c.device)

  -- The device after one byte was looked for and read.
  abbrev read_once : D → D
  read_once d = (dev.ser_read (dev.ser_available d).1).1

  check_for_message-nil :
      (fuel : ℕ) (c : TestStandComm D)
      → b.rx c.device ≡ []
      → check_for_message dev (suc fuel) c
        ≡ some (false, record c { device = (dev.ser_available c.device).1 })
  unfolding check_for_message
  check_for_message-nil fuel c e = rw (laws.available_count c.device, e)

  check_for_message-cons :
      (x : ℕ) (xs : List ℕ) (fuel : ℕ) (c : TestStandComm D)
      → b.rx c.device ≡ x ∷ xs
      → let c' =
          put_receiver (record c { device = read_once c.device }) (recv_byte x (receiver c)).1 in
        check_for_message dev (suc fuel) c
        ≡ (if (recv_byte x (receiver c)).0 then some (true, c') else check_for_message dev fuel c')
  unfolding check_for_message
  check_for_message-cons x xs fuel c e =
      let count = laws.available_count c.device ∙ ap length e in
      let byte = laws.read_byte _ x xs (laws.available_rx c.device ∙ e) in
      rw (count, suc-==-zero, byte) (search if_app)

  pub check_for_message-Polled :
      (xs : List ℕ) (fuel : ℕ) (c : TestStandComm D)
      → b.rx c.device ≡ xs
      → length xs < fuel
      → Polled c xs (check_for_message dev fuel c)
  check_for_message-Polled xs zero c e h = absurd (omega arith)
  check_for_message-Polled [] (suc fuel) c e h = rw (feed-nil (receiver c)) (
    (dev.ser_available c.device).1,
    check_for_message-nil fuel c e,
    laws.available_rx c.device ∙ e,
    laws.available_tx c.device,
  )
  check_for_message-Polled (x ∷ xs) (suc fuel) c e h =
      let d = read_once c.device in
      let c' = put_receiver (record c { device = d }) (recv_byte x (receiver c)).1 in
      let rx' = laws.read_rx _ x xs (laws.available_rx c.device ∙ e) in
      let tx' = laws.read_tx (dev.ser_available c.device).1 ∙ laws.available_tx c.device in
      elim (Bool-cases (recv_byte x (receiver c)).0) [
        | inl done ↦
            rw (check_for_message-cons x xs fuel c e, done, feed_done x xs (receiver c) done)
              (d, refl, rx', tx')
        | inr more ↦
            let (d', out, rest, sent) = check_for_message-Polled xs fuel c' rx' (omega arith) in
            rw (check_for_message-cons x xs fuel c e, more, feed_more x xs (receiver c) more)
              (d', out, rest, sent ∙ tx')
      ]
