-- ===== src/Examples/Firmware.antt =====
-- The shipped program on a wire.
use mpmt_test_stand.Prelude.{◌≡◌, refl, false, List, [], ◌∷◌, ◌+◌, arith}
use mpmt_test_stand.Shared.{axis_x}
use mpmt_test_stand.Gantry.Axis.{setup_axis, start_axis, validate_motion}
use mpmt_test_stand.Gantry.Kinematics.{generate_vel_profile}
use mpmt_test_stand.Gantry.Isr.{ls_far, interrupt}
use mpmt_test_stand.Thermistor
use mpmt_test_stand.Serial.Transport.{reset}
use mpmt_test_stand.Serial.Transport
use mpmt_test_stand.Serial.Session
use mpmt_test_stand.Serial.Comm
use mpmt_test_stand.Stand.{carries_on, handle_home_a, update_status, axis_interrupt}
use mpmt_test_stand.Stand.Handlers
use mpmt_test_stand.Stand.Safety.{IsSafe}
use mpmt_test_stand.Stand.Moments.{updated, served, interrupted, run}
use mpmt_test_stand.Firmware.{Due, Core, Firmware, main_setup, main_loop, blink, test_stand}
use mpmt_test_stand.Firmware.Status.{
  Occasion, moment, blinked, run_firmware, power_on, pass, firmware_status, main_loop_lem,
}
use mpmt_test_stand.Examples.Wire.{Wire, wire_device}
use mpmt_test_stand.Examples.Gantry.{mck}
use mpmt_test_stand.Examples.Stand.{whole, bench, begun, or_else}

abbrev names : Due
names = record {
  tc0 = 0;
  tc1 = 1;
  tc2 = 2;
  tc_irqn = λ n. 27 + n;
  pioc = 2;
  pio_periph_b = 1;
  pio_pc25b_tioa6 = 33554432;
  pio_pc28b_tioa7 = 268435456;
  a0 = 54;
  a1 = 55;
  a2 = 56;
  a3 = 57;
  a4 = 58;
  led_builtin = 13;
}

-- The clock says 700 ms.
abbrev pins : Core Wire
pins = record {
  pin_mode_output = λ pin d. d;
  digital_write = λ pin level d. d;
  millis = λ d. (700, d);
}

abbrev start : Firmware Wire
start = power_on wire_device bench pins whole names false mck 1 20 begun.cal begun.comm 0 false

abbrev set_up : Firmware Wire
set_up =
    (or_else (tt, start) (main_setup wire_device bench pins whole names false mck 1 20 1 start)).1

abbrev occasions : List Occasion
occasions =
    moment updated
    ∷ moment served
    ∷ blinked
    ∷ moment (interrupted axis_x (ls_far 0))
    ∷ moment updated
    ∷ moment served
    ∷ blinked
    ∷ []

abbrev finally : Firmware Wire
finally =
    (or_else (carries_on, set_up)
      (run_firmware wire_device bench pins whole names false mck 1 20 occasions set_up)).1

firmware_status_example : IsSafe finally.stand
unfolding reset main_setup test_stand run_firmware Handlers.setup Thermistor.setup Comm.ping
    Comm.check_for_message Session.send_message Session.await_ack Session.check_for_message
    Session.check_received_msg Transport.send_message Transport.recv_message
    Transport.check_for_message Transport.recv_loop Transport.recv_byte run Handlers.serve
    handle_home_a start_axis validate_motion generate_vel_profile update_status axis_interrupt
    interrupt blink setup_axis
firmware_status_example =
    firmware_status wire_device bench pins whole names false mck 1 20 1 occasions begun.cal
      begun.comm 0 false set_up finally carries_on (ground arith) (ground arith) refl refl

main_loop_lem_example :
    main_loop wire_device bench pins whole names false mck 1 20 start
    ≡ run_firmware wire_device bench pins whole names false mck 1 20 pass start
main_loop_lem_example = main_loop_lem wire_device bench pins whole names false mck 1 20 start
