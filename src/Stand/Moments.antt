-- ===== src/Stand/Moments.antt =====
-- The firmware from `setup` on: passes of the loop, and interrupts of the axes between the update of
-- the status and the poll of the serial port.
use mpmt_test_stand.Prelude.{ℕ, zero, suc, ◌≡◌, refl, Bool, false, some, List, [], ◌∷◌}
use mpmt_test_stand.Shared.{Status, status_idle, AxisId}
use mpmt_test_stand.Gantry.Hardware.{same_timer}
use mpmt_test_stand.Gantry.State.{Axis, AxisIo, AxisMech}
use mpmt_test_stand.Gantry.Axis.{setup_axis, reset_axis}
use mpmt_test_stand.Gantry.Isr.{Interrupt}
use mpmt_test_stand.Gantry.Isr.Timers.{IsSynced, setup_axis-IsSynced}
use mpmt_test_stand.Thermistor.{Doubles, Board}
use mpmt_test_stand.Thermistor
use mpmt_test_stand.Serial.{is_ok}
use mpmt_test_stand.Serial.Device.{SerialDevice}
use mpmt_test_stand.Serial.Exec.{TestStandComm, Exec, pure, gets, ◌>>=◌, on_device}
use mpmt_test_stand.Serial.Exec.Keeps.{
  Keeps, Keeps-out_of_fuel, Keeps-pure, Keeps-gets, Keeps-if, Keeps-modify, Keeps-bind, Keeps-run,
}
use mpmt_test_stand.Serial.Comm
use mpmt_test_stand.Stand.{
  Fate, carries_on, null_axis, Stand, Config, with_comm, on_comm, with_status, update_status,
  axis_interrupt, setup_axes,
}
use mpmt_test_stand.Stand.Handlers
use mpmt_test_stand.Stand.Covered.{still-IsCovered}
use mpmt_test_stand.Stand.Safety.{IsSafe, axis_interrupt-IsSafe, update_status-IsSafe}
use mpmt_test_stand.Stand.Loop.{Keeps-on_comm, serve-IsSafe}

pub data Moment : Type 0 where
  updated served : Moment
  interrupted : AxisId → Interrupt → Moment

-- Both axes at rest: what `setup` begins with.
record IsResting {D : Type 0} (s : Stand D) : Type 0 where
  still_x : s.x.state.moving ≡ false
  still_y : s.y.state.moving ≡ false
  synced_x : IsSynced s.x
  synced_y : IsSynced s.y

with_comm-IsResting :
    {D : Type 0} → (c : TestStandComm D) (s : Stand D) → IsResting s → IsResting (with_comm c s)
with_comm-IsResting c s h = record {
  still_x = h.still_x;
  still_y = h.still_y;
  synced_x = h.synced_x;
  synced_y = h.synced_y;
}

with_status-IsResting :
    {D : Type 0} → (s : Stand D) → IsResting s → IsResting (with_status status_idle s)
with_status-IsResting s h = record {
  still_x = h.still_x;
  still_y = h.still_y;
  synced_x = h.synced_x;
  synced_y = h.synced_y;
}

-- The step timer and the acceleration timer of each axis are different channels, as in conf.h.
abbrev pub TimersApart : {D : Type 0} → Stand D → Type 0
TimersApart s =
    (same_timer s.conf.io_axis_x.step s.x.accel ≡ false)
    × (same_timer s.conf.io_axis_y.step s.y.accel ≡ false)

setup_axis_still :
    (a : Axis) (io : AxisIo) (mech : AxisMech) → (setup_axis a io mech).state.moving ≡ false
unfolding setup_axis reset_axis
setup_axis_still a io mech = refl

setup_axes-IsResting : {D : Type 0} → (s : Stand D) → TimersApart s → IsResting (setup_axes s)
setup_axes-IsResting s h = record {
  still_x = setup_axis_still s.x s.conf.io_axis_x s.conf.axis_mech;
  still_y = setup_axis_still s.y s.conf.io_axis_y s.conf.axis_mech;
  synced_x = setup_axis-IsSynced s.x s.conf.io_axis_x s.conf.axis_mech h.0;
  synced_y = setup_axis-IsSynced s.y s.conf.io_axis_y s.conf.axis_mech h.1;
}

resting-IsSafe :
    {D : Type 0} → (status : Status) (s : Stand D) → IsResting s → IsSafe (with_status status s)
resting-IsSafe status s h = record {
  safe_x = still-IsCovered status s.x h.still_x h.synced_x;
  safe_y = still-IsCovered status s.y h.still_y h.synced_y;
}

module _ {D F : Type 0} (dev : SerialDevice D) (board : Board D) (fl : Doubles F)
    (big_endian : Bool) (mck rounds bytes : ℕ) where
  abbrev setup_temp : Config → Exec (TestStandComm D) (Unit {0})
  setup_temp conf = on_device (λ d. (tt, Thermistor.setup board conf.io_temp d))

  abbrev delay_100 : Exec (TestStandComm D) (Unit {0})
  delay_100 = on_device (λ d. (tt, board.delay 100 d))

  wait_for_host-IsResting :
      (pings : ℕ)
      → Keeps IsResting (Handlers.wait_for_host dev board fl big_endian mck rounds bytes pings)
  unfolding Handlers.wait_for_host
  wait_for_host-IsResting zero = Keeps-out_of_fuel
  wait_for_host-IsResting (suc pings) =
      Keeps-bind _
        (λ res. Keeps-if (is_ok res) _ _ (Keeps-pure tt) (
          Keeps-bind _ (λ _. wait_for_host-IsResting pings) (on_comm delay_100)
            (Keeps-on_comm with_comm-IsResting delay_100)))
        (on_comm (Comm.ping dev rounds bytes))
        (Keeps-on_comm with_comm-IsResting (Comm.ping dev rounds bytes))

  connect-IsResting :
      (pings : ℕ)
      → Keeps IsResting (Handlers.connect dev board fl big_endian mck rounds bytes pings)
  unfolding Handlers.connect
  connect-IsResting pings =
      Keeps-bind _
        (λ conf.
          Keeps-bind _
            (λ _.
              Keeps-bind _
                (λ _.
                  Keeps-bind _ (λ _. Keeps-modify (with_status status_idle) with_status-IsResting)
                    (Handlers.wait_for_host dev board fl big_endian mck rounds bytes pings)
                    (wait_for_host-IsResting pings))
                (on_comm (on_device (λ d. dev.ser_connect d conf.serial_comm_baud_rate)))
                (Keeps-on_comm with_comm-IsResting
                  (on_device (λ d. dev.ser_connect d conf.serial_comm_baud_rate))))
            (on_comm (setup_temp conf)) (Keeps-on_comm with_comm-IsResting (setup_temp conf)))
        (gets (λ s. s.conf)) (Keeps-gets _)

  pub setup-IsSafe :
      (pings : ℕ) (s s' : Stand D)
      → TimersApart s
      → Handlers.setup dev board fl big_endian mck rounds bytes pings s ≡ some (tt, s')
      → IsSafe s'
  unfolding Handlers.setup
  setup-IsSafe pings s s' h e = resting-IsSafe s'.status s' (
      Keeps-run (Handlers.connect dev board fl big_endian mck rounds bytes pings) (setup_axes s) s'
        tt (connect-IsResting pings) (setup_axes-IsResting s h) e)

  -- One thing that happens to the firmware.
  unfoldable pub happen : Moment → Exec (Stand D) Fate
  happen updated s = some (carries_on, update_status mck s)
  happen served s = Handlers.serve dev board fl big_endian mck rounds bytes s
  happen (interrupted id i) s = some (carries_on, axis_interrupt mck id i s)

  -- A run of the firmware, up to a use of the null pointer.
  unfoldable pub run : List Moment → Exec (Stand D) Fate
  unfolding happen
  run [] = pure carries_on
  run (m ∷ ms) = happen m >>= λ fate. elim fate [ carries_on ↦ run ms | null_axis ↦ pure null_axis ]

  pub happen-IsSafe : (m : Moment) → Keeps IsSafe (happen m)
  unfolding happen
  happen-IsSafe updated = record { at = update_status-IsSafe mck }
  happen-IsSafe served = serve-IsSafe dev board fl big_endian mck rounds bytes
  happen-IsSafe (interrupted id i) = record { at = axis_interrupt-IsSafe mck id i }

  run_on :
      (ms : List Moment)
      → Keeps IsSafe (run ms)
      → (fate : Fate)
      → Keeps IsSafe (elim fate as (λ _. Exec (Stand D) Fate) [
        | carries_on ↦ run ms
        | null_axis ↦ pure null_axis
      ])
  run_on ms k carries_on = k
  run_on ms k null_axis = Keeps-pure null_axis

  run-IsSafe : (ms : List Moment) → Keeps IsSafe (run ms)
  unfolding run
  run-IsSafe [] = Keeps-pure carries_on
  run-IsSafe (m ∷ ms) =
      Keeps-bind _ (λ fate. run_on ms (run-IsSafe ms) fate) (happen m) (happen-IsSafe m)

  -- Let the step timer and the acceleration timer of each axis be different channels. After
  -- `setup` has returned, and after any sequence of status updates, polls with their handlers, and
  -- interrupts of the axes, as long as it returns: an axis moves only if the status is `moving` or
  -- `homing`, and the step timer and the acceleration timer of an axis each run exactly while that
  -- axis moves.
  pub run_status :
      (pings : ℕ) (ms : List Moment) (s s' s'' : Stand D) (fate : Fate)
      → TimersApart s
      → Handlers.setup dev board fl big_endian mck rounds bytes pings s ≡ some (tt, s')
      → run ms s' ≡ some (fate, s'')
      → IsSafe s''
  run_status pings ms s s' s'' fate h e r =
      Keeps-run (run ms) s' s'' fate (run-IsSafe ms) (setup-IsSafe pings s s' h e) r
