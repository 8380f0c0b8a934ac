-- ===== src/Examples/Helper.antt =====
-- The front end's calls, on a wire that has the answers waiting.
use mpmt_test_stand.Prelude.{
  ℕ, ◌≡◌, ◌↔◌, refl, true, false, some, List, [], ◌∷◌, ◌++◌, arith, replicate,
}
use mpmt_test_stand.Shared.{
  axis_x, axis_y, PositionMsgData, msg_receive_timeout_ms, msg_id_position, msg_id_axis_result,
}
use mpmt_test_stand.Serial.{Message, seg_start, serial_ok}
use mpmt_test_stand.Serial.Exec.{TestStandComm}
use mpmt_test_stand.Serial.Transport.RoundTrip.{wire}
use mpmt_test_stand.Serial.Session.{ack_msg}
use mpmt_test_stand.Serial.Host
use mpmt_test_stand.Gantry.Timer.{reset_pwm_timer, reset_timer_interrupt}
use mpmt_test_stand.Gantry.Kinematics.{generate_vel_profile, calc_dist_accel}
use mpmt_test_stand.Gantry.Axis.{start_axis, validate_motion, reached_target}
use mpmt_test_stand.Gantry.Isr.{interrupt, interrupts}
use mpmt_test_stand.Frontends.Helper.Goal.{move_ends_at_target}
use mpmt_test_stand.Examples.Gantry.{standing, moving_axis, drive, mck}
use mpmt_test_stand.Frontends.Helper.{get_direction, abs32, mm_to_cts, mm_to_steps, arduino_move}
use mpmt_test_stand.Frontends.Helper.Course.{IsWithinLimits}
use mpmt_test_stand.Frontends.Helper.Moves.{Accepted, arduino_move-true}
use mpmt_test_stand.Examples.Wire.{Wire, wire_device}
use mpmt_test_stand.Examples.Scan.{whole}

abbrev zeros : List ℕ
zeros = replicate 255 0

-- The position (100, 200), and a start that is accepted.
abbrev position_msg : Message
position_msg = record {
  id = msg_id_position;
  length = 8;
  payload = 0 ∷ 0 ∷ 0 ∷ 100 ∷ 0 ∷ 0 ∷ 0 ∷ 200 ∷ [];
}

abbrev result_msg : Message
result_msg = record { id = msg_id_axis_result; length = 1; payload = 0 ∷ [] }

abbrev pub host : List ℕ → TestStandComm Wire
host rx = record {
  device = record { rx = rx; tx = [] };
  transport = record {
    pending_message = record {
      current_segment = seg_start;
      bytes_read = 0;
      msg_length = 0;
      crc = 0;
    };
    msg_in_progress = false;
  };
  received_msg = record { id = 0; length = 0; payload = zeros };
  send_buf = zeros;
}

abbrev answers : List ℕ
answers =
    wire ack_msg
    ++ (wire position_msg
        ++ (wire ack_msg ++ (wire result_msg ++ (wire ack_msg ++ wire result_msg))))

-- The commands that are sent: 10 counts back on the x-axis, 10 counts on along the y-axis.
abbrev commands : List ℕ
commands =
    wire (record { id = 68; length = 0; payload = [] })
    ++ (wire ack_msg
        ++ (wire (record {
          id = 66;
          length = 10;
          payload = 0 ∷ 0 ∷ 0 ∷ 5 ∷ 0 ∷ 0 ∷ 0 ∷ 10 ∷ 0 ∷ 1 ∷ [];
        })
            ++ (wire ack_msg
                ++ (wire (record {
                  id = 66;
                  length = 10;
                  payload = 0 ∷ 0 ∷ 0 ∷ 5 ∷ 0 ∷ 0 ∷ 0 ∷ 10 ∷ 1 ∷ 0 ∷ [];
                })
                    ++ wire ack_msg))))

abbrev moved : TestStandComm Wire
moved = record (host []) {
  device = record { rx = []; tx = commands };
  received_msg = record {
    id = msg_id_axis_result;
    length = 1;
    payload = 0 ∷ 0 ∷ 0 ∷ 100 ∷ 0 ∷ 0 ∷ 0 ∷ 200 ∷ replicate 247 0;
  };
}

arduino_move-true_example :
    (arduino_move whole wire_device 3 30 0 (90, 210) (5, 5) (host answers) ≡ some (true, moved)) ↔ (
      IsWithinLimits whole (90, 210) (5, 5)
      × (pos : PositionMsgData) × (c1 : TestStandComm Wire) × (c2 : TestStandComm Wire)
      × (Host.get_position wire_device 3 30 msg_receive_timeout_ms (host answers)
          ≡ some ((serial_ok, some pos), c1))
      × Accepted whole wire_device 3 30 0 axis_x pos.x_counts 90 5 c1 c2
      × Accepted whole wire_device 3 30 0 axis_y pos.y_counts 210 5 c2 moved)
arduino_move-true_example =
    arduino_move-true whole wire_device 3 30 0 (90, 210) (5, 5) (host answers) moved

-- A move by two counts.
move_ends_at_target_example :
    reached_target (get_direction 2) (interrupts mck drive moving_axis).state.encoder_current 2
    ≡ true
unfolding start_axis interrupts interrupt validate_motion generate_vel_profile reset_pwm_timer
    reset_timer_interrupt calc_dist_accel get_direction abs32 mm_to_cts mm_to_steps
move_ends_at_target_example =
    move_ends_at_target whole 0 2 160 mck 1600 160 standing moving_axis drive (omega arith)
      (omega arith) (omega arith) (omega arith) refl refl refl
