-- ===== src/Firmware/Status.antt =====
-- What the shipped program guarantees, from its static objects on.
use mpmt_test_stand.Prelude.{
  ℕ, ◌≡◌, ◌≢◌, refl, ap, ◌∙◌, Bool, false, Option, none, some, List, [], ◌∷◌, arith, ◌==◌,
}
use mpmt_test_stand.Shared.{Calibration}
use mpmt_test_stand.Thermistor.{Doubles, Board}
use mpmt_test_stand.Serial.Device.{SerialDevice}
use mpmt_test_stand.Serial.Exec.{TestStandComm, Exec, pure, modify, bind-inv, ◌>>=◌, ◌>>◌}
use mpmt_test_stand.Serial.Exec.Keeps.{
  After, Keeps, Keeps-pure, Keeps-bind, Keeps-if, Keeps-gets, Keeps-run,
}
use mpmt_test_stand.Stand.{Stand, Fate, carries_on, null_axis, update_status}
use mpmt_test_stand.Stand.Handlers
use mpmt_test_stand.Stand.Safety.{IsSafe}
use mpmt_test_stand.Stand.Moments.{
  Moment, updated, served, TimersApart, happen, happen-IsSafe, setup-IsSafe,
}
use mpmt_test_stand.Firmware.{
  Due, Core, test_stand, Firmware, on_stand, on_core, with_device, and_blink, blink, after_setup,
  main_setup, main_loop,
}

-- What happens to the program after `main_setup`: the halves of `execute`, the interrupts of the axes,
-- and the second half of `loop`.
pub data Occasion : Type 0 where
  moment : Moment → Occasion
  blinked : Occasion

abbrev pub pass : List Occasion
pass = moment updated ∷ moment served ∷ blinked ∷ []

-- The safety of the main object in the globals.
abbrev Safe : {D : Type 0} → Firmware D → Type 0
Safe f = IsSafe f.stand

different : (a b : ℕ) → a ≢ b → (a == b) ≡ false
different a b h = ground (arith, h)

test_stand-TimersApart :
    {D : Type 0} (due : Due) (cal : Calibration) (comm : TestStandComm D)
    → due.tc2 ≢ due.tc1
    → due.tc2 ≢ due.tc0
    → TimersApart (test_stand due cal comm)
unfolding test_stand
test_stand-TimersApart due cal comm h1 h0 =
    (rw (different due.tc2 due.tc1 h1) refl, rw (different due.tc2 due.tc0 h0) refl)

with_device-IsSafe : {D : Type 0} → (d : D) (s : Stand D) → IsSafe s → IsSafe (with_device d s)
with_device-IsSafe d s h = record { safe_x = h.safe_x; safe_y = h.safe_y }

module _ {D A : Type 0} where
  Safe-on_core : (call : D → A × D) → Keeps (Safe {D = D}) (on_core call)
  Safe-on_core call = record {
    at = λ f h. with_device-IsSafe (call f.stand.comm.device).1 f.stand h;
  }

  After-on_stand :
      (r : Option (A × Stand D)) (f : Firmware D)
      → After IsSafe r
      → After Safe (elim r as (λ _. Option (A × Firmware D)) [
        | none ↦ none
        | some (a, s) ↦ some (a, record f { stand = s })
      ])
  After-on_stand none f h = tt
  After-on_stand (some (a, s)) f h = h

  Safe-on_stand : (m : Exec (Stand D) A) → Keeps IsSafe m → Keeps Safe (on_stand m)
  Safe-on_stand m k = record { at = λ f h. After-on_stand (m f.stand) f (k.at f.stand h) }

  -- A call on the main object that returns, seen from the globals.
  on_stand_cases :
      (r : Option (A × Stand D)) (f f' : Firmware D) (a : A)
      → elim r as (λ _. Option (A × Firmware D)) [
        | none ↦ none
        | some (a, s) ↦ some (a, record f { stand = s })
      ]
        ≡ some (a, f')
      → r ≡ some (a, f'.stand)
  on_stand_cases none f f' a e = cc
  on_stand_cases (some (b, s)) f f' a e =
      let same : b ≡ a = cc in
      let next : record f { stand = s } ≡ f' = cc in
      ap (λ x. some (x, s)) same ∙ ap (λ g. some (a, g.stand)) next

module _ {D : Type 0} where
  Safe-blink_fields :
      (start : Firmware D → ℕ) (state : Firmware D → Bool)
      → Keeps Safe (modify (λ f. record f { blink_start = start f; blink_state = state f }))
  Safe-blink_fields start state = record { at = λ f h. h }

module _ {D F : Type 0} (dev : SerialDevice D) (board : Board D) (core : Core D) (fl : Doubles F)
    (due : Due) (big_endian : Bool) (mck rounds bytes : ℕ) where
  blink-Safe : Keeps Safe (blink dev board core fl due big_endian mck rounds bytes)
  unfolding blink
  blink-Safe =
      search (Keeps-bind, Keeps-if, Keeps-pure, Keeps-gets, Safe-on_core, Safe-blink_fields) depth
        12

  after_setup-Safe : Keeps Safe (after_setup dev board core fl due big_endian mck rounds bytes)
  unfolding after_setup
  after_setup-Safe = search (Keeps-bind, Safe-on_core, Safe-blink_fields) depth 8

  occur : Occasion → Exec (Firmware D) Fate
  occur (moment m) = on_stand (happen dev board fl big_endian mck rounds bytes m)
  occur blinked = blink dev board core fl due big_endian mck rounds bytes >> pure carries_on

  abbrev proceed : Exec (Firmware D) Fate → Fate → Exec (Firmware D) Fate
  proceed rest carries_on = rest
  proceed rest null_axis = pure null_axis

  -- A run of the program, up to a use of the null pointer.
  unfoldable pub run_firmware : List Occasion → Exec (Firmware D) Fate
  unfolding occur
  run_firmware [] = pure carries_on
  run_firmware (o ∷ os) = let rest = run_firmware os in occur o >>= proceed rest

  occur-Safe : (o : Occasion) → Keeps Safe (occur o)
  unfolding occur
  occur-Safe (moment m) = Safe-on_stand _ (happen-IsSafe dev board fl big_endian mck rounds bytes m)
  occur-Safe blinked = Keeps-bind _ (λ _. Keeps-pure carries_on) _ blink-Safe

  proceed-Safe :
      (rest : Exec (Firmware D) Fate)
      → Keeps Safe rest
      → (fate : Fate) → Keeps Safe (proceed rest fate)
  proceed-Safe rest k carries_on = k
  proceed-Safe rest k null_axis = Keeps-pure null_axis

  run_firmware-Safe : (os : List Occasion) → Keeps Safe (run_firmware os)
  unfolding run_firmware
  run_firmware-Safe [] = Keeps-pure carries_on
  run_firmware-Safe (o ∷ os) =
      Keeps-bind (proceed (run_firmware os)) (proceed-Safe (run_firmware os) (run_firmware-Safe os))
        (occur o) (occur-Safe o)

  -- The globals before `setup`.
  abbrev pub power_on : Calibration → TestStandComm D → ℕ → Bool → Firmware D
  power_on cal comm start state = record {
    stand = test_stand due cal comm;
    blink_start = start;
    blink_state = state;
  }

  main_setup-Safe :
      (pings : ℕ) (cal : Calibration) (comm : TestStandComm D) (start : ℕ) (state : Bool)
      (f : Firmware D)
      → due.tc2 ≢ due.tc1
      → due.tc2 ≢ due.tc0
      → main_setup dev board core fl due big_endian mck rounds bytes pings
          (power_on cal comm start state)
        ≡ some (tt, f)
      → Safe f
  unfolding main_setup test_stand
  main_setup-Safe pings cal comm start state f h1 h0 e =
      let lit = record (power_on cal comm start state) {
        stand =
            with_device (core.pin_mode_output due.led_builtin comm.device)
              (test_stand due cal comm);
      } in
      let behind = after_setup dev board core fl due big_endian mck rounds bytes in
      let set_up = Handlers.setup dev board fl big_endian mck rounds bytes pings in
      let (_, f1, first, rest) = bind-inv (on_stand set_up) (λ _. behind) lit (tt, f) e in
      let run = on_stand_cases (set_up lit.stand) lit f1 tt first in
      Keeps-run behind f1 f tt after_setup-Safe
        (setup-IsSafe dev board fl big_endian mck rounds bytes pings lit.stand f1.stand
          (test_stand-TimersApart due cal comm h1 h0) run)
        rest

  -- Let TC2 be another timer counter than TC1 and than TC0. Start from the static objects with the
  -- configuration of conf.h and any calibration. After `setup` of main.cpp has returned, and after
  -- any sequence of status updates, polls with their handlers, blinks of the LED and interrupts of
  -- the axes, as long as it returns: an axis moves only if the status is `moving` or `homing`, and
  -- the step timer and the acceleration timer of an axis each run exactly while that axis moves.
  pub firmware_status :
      (pings : ℕ) (os : List Occasion) (cal : Calibration) (comm : TestStandComm D) (start : ℕ)
      (state : Bool) (f f' : Firmware D) (fate : Fate)
      → due.tc2 ≢ due.tc1
      → due.tc2 ≢ due.tc0
      → main_setup dev board core fl due big_endian mck rounds bytes pings
          (power_on cal comm start state)
        ≡ some (tt, f)
      → run_firmware os f ≡ some (fate, f')
      → IsSafe f'.stand
  firmware_status pings os cal comm start state f f' fate h1 h0 e r =
      Keeps-run (run_firmware os) f f' fate (run_firmware-Safe os)
        (main_setup-Safe pings cal comm start state f h1 h0 e) r

  blinked_alone :
      (r : Option (Unit {0} × Firmware D))
      → elim r as (λ _. Option (Fate × Firmware D)) [
        | none ↦ none
        | some (_, f) ↦ some (carries_on, f)
      ]
        ≡ elim (elim r as (λ _. Option (Fate × Firmware D)) [
          | none ↦ none
          | some (_, f) ↦ some (carries_on, f)
        ])
            as (λ _. Option (Fate × Firmware D)) [
              | none ↦ none
              | some (fate, f) ↦ proceed (pure carries_on) fate f
            ]
  blinked_alone none = refl
  blinked_alone (some (_, f)) = refl

  served_alone :
      (r : Option (Fate × Stand D)) (f : Firmware D)
      → (on_stand (λ _. r) >>= and_blink dev board core fl due big_endian mck rounds bytes) f
        ≡ (on_stand (λ _. r) >>= proceed (run_firmware (blinked ∷ []))) f
  unfolding run_firmware
  served_alone none f = refl
  served_alone (some (carries_on, s)) f =
      blinked_alone
        (blink dev board core fl due big_endian mck rounds bytes (record f { stand = s }))
  served_alone (some (null_axis, s)) f = refl

  -- A pass of `loop` is an update of the status, a poll with its handler, and the blink.
  pub main_loop_lem :
      (f : Firmware D)
      → main_loop dev board core fl due big_endian mck rounds bytes f ≡ run_firmware pass f
  unfolding main_loop run_firmware happen Handlers.execute
  main_loop_lem f =
      served_alone
        (Handlers.serve dev board fl big_endian mck rounds bytes (update_status mck f.stand)) f
