-- ===== src/Serial/Transport/Timeout.antt =====
-- When the blocking receive gives up.
use mpmt_test_stand.Prelude.{
  ℕ, zero, suc, ◌+◌, ◌*◌, ◌/◌, ◌≤◌, ◌<◌, ◌≡◌, refl, Bool, true, false, Option, none, some, arith,
  length, ◌∙◌, Bool-cases, inl, inr, if◌then◌else◌, u32, sub64, ltb, dec_lt, ◌==◌, Bool-cases,
}
use mpmt_test_stand.Serial.Device.{SerialDevice, Buffer, IsBuffered}
use mpmt_test_stand.Serial.Exec.{TestStandComm, Exec, bind-some, on_device}
use mpmt_test_stand.Serial.Exec.Keeps.{
  Keeps, Keeps-out_of_fuel, Keeps-pure, Keeps-if, Keeps-bind, Keeps-run,
}
use mpmt_test_stand.Serial.Transport.{
  reset, take_byte, on_read, check_for_message, recv_loop, recv_message,
}
use mpmt_test_stand.Serial.Transport.Feed.{check_for_message-Polled}

-- The clock behind platform_millis, in microseconds: it never goes back, its milliseconds fit uint64_t,
-- and for the first 2 ^ 63 of them a round of the polling loop takes at least a microsecond.
pub record IsClocked {D : Type 0} (dev : SerialDevice D) (us : D → ℕ) : Type 0 where
  pub millis_value : (d : D) → (dev.platform_millis d).0 ≡ us d / 1000
  pub millis_us : (d : D) → us d / 1000 < 9223372036854775808 → us d < us (dev.platform_millis d).1
  pub millis_since : (d : D) → us d ≤ us (dev.platform_millis d).1
  pub available_us : (d : D) → us d ≤ us (dev.ser_available d).1
  pub read_us : (d : D) → us d ≤ us (dev.ser_read d).1
  pub uint64_us : (d : D) → us d / 1000 < 18446744073709551616

-- The test of the timeout, on a clock that shows `now`.
late_enough :
    (now start timeout : ℕ)
    → now < 18446744073709551616
    → start < 4294967296
    → start + timeout < now
    → ltb timeout (sub64 now start) ≡ true
late_enough now start timeout h k l = ground arith

overflow_late :
    (now begin timeout : ℕ)
    → 4294967296 ≤ begin
    → timeout < 4294967296
    → begin ≤ now
    → now < 18446744073709551616
    → ltb timeout (sub64 now (u32 begin)) ≡ true
overflow_late now begin timeout h t k l = ground arith

module _ {D : Type 0} (dev : SerialDevice D) (us : D → ℕ) (clock : IsClocked dev us) where
  abbrev Since : ℕ → TestStandComm D → Type 0
  Since t c = t ≤ us c.device

  take_byte-Since : (t x : ℕ) → Keeps (Since t) (take_byte dev x)
  unfolding take_byte
  take_byte-Since t x = record { at = λ c h. h }

  on_read-Since :
      (t : ℕ) (again : Exec (TestStandComm D) Bool) (o : Option ℕ)
      → Keeps (Since t) again
      → Keeps (Since t) (on_read dev again o)
  unfolding on_read
  on_read-Since t again none k = Keeps-pure false
  on_read-Since t again (some x) k =
      Keeps-bind _ (λ done. Keeps-if done _ _ (Keeps-pure true) k) _ (take_byte-Since t x)

  available-Since : (t : ℕ) → Keeps (Since t) (on_device {D = D} dev.ser_available)
  available-Since t = record { at = λ c h. omega (arith, clock.available_us c.device) }

  read-Since : (t : ℕ) → Keeps (Since t) (on_device {D = D} dev.ser_read)
  read-Since t = record { at = λ c h. omega (arith, clock.read_us c.device) }

  -- A poll does not turn the clock back.
  check_for_message-Since : (t fuel : ℕ) → Keeps (Since t) (check_for_message dev fuel)
  unfolding check_for_message
  check_for_message-Since t zero = Keeps-out_of_fuel
  check_for_message-Since t (suc fuel) =
      Keeps-bind _
        (λ n. Keeps-if (n == 0) _ _ (Keeps-pure false) (
          Keeps-bind _ (λ o. on_read-Since t _ o (check_for_message-Since t fuel)) _
            (read-Since t)))
        _ (available-Since t)

  -- The state after the clock was read.
  abbrev ticked : TestStandComm D → TestStandComm D
  ticked c = record c { device = (dev.platform_millis c.device).1 }

  -- One round of the loop, by what its poll gave.
  recv_loop-round :
      (rounds bytes start timeout : ℕ) (c c1 : TestStandComm D) (got : Bool)
      → check_for_message dev bytes c ≡ some (got, c1)
      → recv_loop dev (suc rounds) bytes start timeout c ≡ (
          if got
          then some (true, c1)
          else if ltb timeout (sub64 (us c1.device / 1000) start)
          then some (false, record (ticked c1) { transport = reset })
          else recv_loop dev rounds bytes start timeout (ticked c1))
  unfolding recv_loop
  recv_loop-round rounds bytes start timeout c c1 true e =
      bind-some (check_for_message dev bytes) _ e
  recv_loop-round rounds bytes start timeout c c1 false e =
      bind-some (check_for_message dev bytes) _ e
      ∙ rw (clock.millis_value c1.device)
          (elim (Bool-cases (ltb timeout (sub64 (us c1.device / 1000) start))) [
            | inl late ↦ rw late
            | inr early ↦ rw early
          ])

  module _ (b : Buffer D) (laws : IsBuffered dev b) (bytes : ℕ)
      (capacity : (d : D) → length (b.rx d) < bytes) where
    abbrev pub Returns : Option (Bool × TestStandComm D) → Type 0
    Returns out = (got : Bool) × (c' : TestStandComm D) × (out ≡ some (got, c'))

    poll_returns :
        (c : TestStandComm D)
        → (got : Bool) × (c1 : TestStandComm D) × (check_for_message dev bytes c ≡ some (got, c1))
          × (us c.device ≤ us c1.device)
    poll_returns c =
        let (d, out, _, _) =
          check_for_message-Polled dev b laws (b.rx c.device) bytes c refl (capacity c.device) in
        let since = check_for_message-Since (us c.device) bytes in
        (_, _, out, Keeps-run _ c _ _ since (omega arith) out)

    -- A round returns if the loop does when the round did not find the timeout over.
    round-Returns :
        (rounds start timeout : ℕ) (c : TestStandComm D)
        → ((c1 : TestStandComm D)
            → us c.device ≤ us c1.device
            → ltb timeout (sub64 (us c1.device / 1000) start) ≡ false
            → Returns (recv_loop dev rounds bytes start timeout (ticked c1)))
        → Returns (recv_loop dev (suc rounds) bytes start timeout c)
    round-Returns rounds start timeout c again =
        let (got, c1, out, since) = poll_returns c in
        rw (recv_loop-round rounds bytes start timeout c c1 got out) (elim (Bool-cases got) [
          | inl found ↦ rw found (true, c1, refl)
          | inr nothing ↦
              rw nothing (elim (Bool-cases (ltb timeout (sub64 (us c1.device / 1000) start))) [
                | inl late ↦ rw late (false, record (ticked c1) { transport = reset }, refl)
                | inr early ↦ rw early (again c1 since early)
              ])
        ])

    not_late :
        (c1 : TestStandComm D) (start timeout : ℕ)
        → start < 4294967296
        → ltb timeout (sub64 (us c1.device / 1000) start) ≡ false
        → us c1.device / 1000 ≤ start + timeout
    not_late c1 start timeout w early = elim (dec_lt (start + timeout) (us c1.device / 1000)) [
      | yes l ↦
          cc
            (early, late_enough (us c1.device / 1000) start timeout (clock.uint64_us c1.device) w l)
      | no l ↦ omega arith
    ]

    recv_loop-Returns :
        (rounds start timeout : ℕ) (c : TestStandComm D)
        → 1000 * (start + timeout + 1) ≤ us c.device + rounds
        → start < 4294967296
        → timeout < 4294967296
        → Returns (recv_loop dev (suc rounds) bytes start timeout c)
    recv_loop-Returns zero start timeout c h w v =
        round-Returns zero start timeout c λ c1 since early. cc (
          early,
          late_enough (us c1.device / 1000) start timeout (clock.uint64_us c1.device) w
              (omega arith),
        )
    recv_loop-Returns (suc rounds) start timeout c h w v =
        round-Returns (suc rounds) start timeout c λ c1 since early.
          let now_small : us c1.device / 1000 ≤ start + timeout =
            not_late c1 start timeout w early in
          recv_loop-Returns rounds start timeout (ticked c1)
            (omega (arith, clock.millis_us c1.device (omega arith))) w v

    -- On a buffered device with a clock that advances, where a poll has fuel for the whole buffer,
    -- and with a clock and a timeout that fit uint32_t: the blocking receive returns, with or
    -- without a message, after at most one poll more than there are microseconds in the timeout
    -- and one millisecond.
    pub recv_message-Returns :
        (timeout : ℕ) (c : TestStandComm D)
        → us c.device / 1000 < 4294967296
        → timeout < 4294967296
        → Returns (recv_message dev (suc (1000 * (timeout + 1))) bytes timeout c)
    unfolding recv_message
    recv_message-Returns timeout c h v = rw (clock.millis_value c.device) (
        recv_loop-Returns (1000 * (timeout + 1)) (u32 (us c.device / 1000)) timeout (ticked c)
          (omega (arith, clock.millis_since c.device)) (omega arith) v)

  -- When the clock is past 2^32 milliseconds at the start of the blocking receive and the first
  -- poll finds no message, the receive gives up at once, whatever the timeout.
  pub recv_message-overflow :
      (rounds bytes timeout : ℕ) (c c1 : TestStandComm D)
      → 4294967296 ≤ us c.device / 1000
      → timeout < 4294967296
      → check_for_message dev bytes (ticked c) ≡ some (false, c1)
      → recv_message dev (suc rounds) bytes timeout c
        ≡ some (false, record (ticked c1) { transport = reset })
  unfolding recv_message
  recv_message-overflow rounds bytes timeout c c1 h t e =
      let since =
        Keeps-run _ (ticked c) c1 false (check_for_message-Since (us (ticked c).device) bytes)
          (omega arith) e in
      let late =
        overflow_late (us c1.device / 1000) (us c.device / 1000) timeout h t
          (omega (arith, clock.millis_since c.device)) (clock.uint64_us c1.device) in
      rw (clock.millis_value c.device) (
        recv_loop-round rounds bytes (u32 (us c.device / 1000)) timeout (ticked c) c1 false e
        ∙ rw late)
