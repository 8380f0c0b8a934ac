-- ===== src/Examples/Stand.antt =====
-- The whole firmware on a wire.
use mpmt_test_stand.Prelude.{
  ℕ, ◌≡◌, refl, true, false, Option, none, some, List, [], ◌∷◌, ◌++◌, replicate,
}
use mpmt_test_stand.Shared.{status_idle, status_moving, axis_x}
use mpmt_test_stand.Gantry.Axis.{start_axis, validate_motion}
use mpmt_test_stand.Gantry.Kinematics.{generate_vel_profile}
use mpmt_test_stand.Gantry.Isr.{ls_far, interrupt}
use mpmt_test_stand.Thermistor
use mpmt_test_stand.Thermistor.{Doubles, Board, ThermistorArrayIo}
use mpmt_test_stand.Serial.{Message, seg_start}
use mpmt_test_stand.Serial.Transport.{reset}
use mpmt_test_stand.Serial.Transport
use mpmt_test_stand.Serial.Transport.RoundTrip.{wire}
use mpmt_test_stand.Serial.Session.{ack_msg}
use mpmt_test_stand.Serial.Session
use mpmt_test_stand.Serial.Comm
use mpmt_test_stand.Stand.{carries_on, Config, Stand, update_status, handle_home_a, axis_interrupt}
use mpmt_test_stand.Stand.Handlers
use mpmt_test_stand.Stand.Safety.{IsSafe}
use mpmt_test_stand.Stand.Moments.{Moment, updated, served, interrupted, run, run_status}
use mpmt_test_stand.Stand.Homing.{y_far_unseen}
use mpmt_test_stand.Examples.Wire.{Wire, wire_device}
use mpmt_test_stand.Examples.Gantry.{io_x, mech, standing, mck}

-- Arithmetic on whole degrees is enough here.
abbrev pub whole : Doubles ℕ
whole = record {
  of_bytes = λ b. 1;
  of_int = λ n. n;
  decimal = λ n k. n;
  add = λ a b. a;
  sub = λ a b. a;
  mul = λ a b. a;
  div = λ a b. a;
  log = λ a. a;
  pow = λ a b. a;
  round = λ a. a;
  truncate = λ a. a;
}

abbrev pub bench : Board Wire
bench = record {
  delay = λ ms d. d;
  analog_read_resolution = λ n d. d;
  analog_read = λ pin d. (2048, d);
  pin_mode_input = λ pin d. d;
}

abbrev config : Config
config = record {
  serial_comm_baud_rate = 115200;
  io_axis_x = io_x;
  io_axis_y = io_x;
  axis_mech = mech;
  io_temp = record {
    pin_therm_amb = 54;
    pin_therm_motor_x = 55;
    pin_therm_motor_y = 57;
    pin_therm_mpmt = 56;
    pin_therm_optical = 58;
  };
}

abbrev pub stand_on : List ℕ → Stand Wire
stand_on rx = record {
  conf = config;
  cal = record {
    cal_gantry = record { accel = 2000; vel_start = 200; vel_home = 200 };
    cal_temp = record { c1 = []; c2 = []; c3 = []; resistor = [] };
  };
  status = status_idle;
  home_a_done = false;
  x = standing;
  y = standing;
  comm = record {
    device = record { rx = rx; tx = [] };
    transport = record {
      pending_message = record {
        current_segment = seg_start;
        bytes_read = 0;
        msg_length = 0;
        crc = 0;
      };
      msg_in_progress = false;
    };
    received_msg = record { id = 0; length = 0; payload = replicate 255 0 };
    send_buf = replicate 255 0;
  };
}

abbrev at_far_end : Stand Wire
at_far_end = record (stand_on []) {
  status = status_moving;
  y = record standing { state = record standing.state { ls_far_pressed = true } };
}

y_far_unseen_example : (update_status mck at_far_end).status ≡ status_idle
y_far_unseen_example = y_far_unseen mck at_far_end refl refl refl refl refl refl

abbrev home_msg : Message
home_msg = record { id = 0x41; length = 0; payload = [] }

-- The host answers the ping of `setup`, and then asks for homing.
abbrev pub begun : Stand Wire
begun = stand_on (wire ack_msg ++ wire home_msg)

abbrev pub or_else : {A : Type 0} → A → Option (A) → A
or_else a none = a
or_else a (some b) = b

abbrev ready : Stand Wire
ready = (or_else (tt, begun) (Handlers.setup wire_device bench whole false mck 1 20 1 begun)).1

abbrev moments : List Moment
moments = updated ∷ served ∷ interrupted axis_x (ls_far 0) ∷ updated ∷ []

abbrev finally : Stand Wire
finally = (or_else (carries_on, ready) (run wire_device bench whole false mck 1 20 moments ready)).1

run_status_example : IsSafe finally
unfolding reset Handlers.setup Thermistor.setup Comm.ping Comm.check_for_message
    Session.send_message Session.await_ack Session.check_for_message Session.check_received_msg
    Transport.send_message Transport.recv_message Transport.check_for_message Transport.recv_loop
    Transport.recv_byte run Handlers.serve handle_home_a start_axis validate_motion
    generate_vel_profile update_status axis_interrupt interrupt
run_status_example =
    run_status wire_device bench whole false mck 1 20 1 moments begun ready finally carries_on
      (refl, refl) refl refl
