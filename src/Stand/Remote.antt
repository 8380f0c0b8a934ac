-- ===== src/Stand/Remote.antt =====
-- What a message of the host makes the controller do: from the bytes in its buffer to the axes.
use mpmt_test_stand.Prelude.{
  ℕ, ◌<◌, ◌≡◌, refl, sym, ap, ◌∙◌, Bool, false, Option, none, some, List, ◌++◌, length, take, drop,
  append-take-drop,
}
use mpmt_test_stand.Shared.{
  AxisId, axis_x, axis_y, axis_code, cast_direction, MoveMsgData, msg_id_move, msg_id_stop,
  msg_id_get_axis_state, status_idle,
}
use mpmt_test_stand.Thermistor.{Doubles, Board}
use mpmt_test_stand.Gantry.Hardware.{is_running}
use mpmt_test_stand.Gantry.Axis.{start_axis}
use mpmt_test_stand.Serial.{Message, serial_ok}
use mpmt_test_stand.Serial.Device.{SerialDevice, Buffer, IsBuffered, IsWriter}
use mpmt_test_stand.Serial.Exec.{TestStandComm, Exec, bind-some, pure, ◌>>=◌}
use mpmt_test_stand.Serial.Session
use mpmt_test_stand.Serial.Comm
use mpmt_test_stand.Serial.Controller
use mpmt_test_stand.Serial.Host.{move_payload}
use mpmt_test_stand.Serial.Payloads.{recv_move-move_payload}
use mpmt_test_stand.Serial.Transport.Takes.{IsTaking}
use mpmt_test_stand.Serial.Session.Delivery.{Accepted, Waits, check_for_message-Accepted}
use mpmt_test_stand.Stand.{Stand, carries_on, get_axis, with_comm, on_comm, is_moving, handle_stop}
use mpmt_test_stand.Stand.Handlers
use mpmt_test_stand.Stand.Homing.{stop_all}
use mpmt_test_stand.Stand.Orders.{
  direction, ordered, ordered_lem, named, underway, result_msg, begin_move_lem,
}

on_comm-some :
    {D A : Type 0} (m : Exec (TestStandComm D) A) (s : Stand D) (a : A) (c : TestStandComm D)
    → m s.comm ≡ some (a, c)
    → on_comm m s ≡ some (a, with_comm c s)
on_comm-some {D = D} {A = A} m s a c e =
    ap
      (λ r. elim r as (λ _. Option (A × Stand D)) [
        | none ↦ none
        | some (a, c) ↦ some (a, with_comm c s)
      ])
      e

-- What stands where after a message arrived.
pub message_lem :
    (m : Message) (id length : ℕ) (payload : List ℕ)
    → m.id ≡ id
    → m.length ≡ length
    → m.payload ≡ payload
    → m ≡ record { id = id; length = length; payload = payload }
message_lem m id length payload e1 e2 e3 = cc

get_axis-axis_code : (axis : AxisId) → get_axis (axis_code axis) ≡ some axis
get_axis-axis_code axis_x = refl
get_axis-axis_code axis_y = refl

-- The message of TestStandCommHost::move.
abbrev pub move_msg : AxisId → Bool → ℕ → ℕ → Message
move_msg axis backwards vel_hold dist = record {
  id = msg_id_move;
  length = 10;
  payload = move_payload axis (direction backwards) vel_hold dist;
}

-- What the controller reads from a received MOVE.
move_read :
    (m : Message) (axis : AxisId) (backwards : Bool) (vel_hold dist : ℕ)
    → vel_hold < 4294967296
    → dist < 4294967296
    → m.length ≡ 10
    → take 10 m.payload ≡ take 10 (move_msg axis backwards vel_hold dist).payload
    → (move : MoveMsgData) × (Controller.recv_move m ≡ some move)
      × (move.vel_hold ≡ vel_hold)
      × (move.dist_counts ≡ dist)
      × (move.axis ≡ axis_code axis)
      × (cast_direction move.dir ≡ direction backwards)
unfolding move_payload
move_read m axis backwards vel_hold dist hv hd same_length same_payload =
    let behind = drop 10 m.payload in
    let sent = (move_msg axis backwards vel_hold dist).payload in
    let payload : m.payload ≡ sent ++ behind =
      sym (append-take-drop 10 m.payload) ∙ ap (λ p. p ++ behind) same_payload in
    let message = message_lem m m.id 10 (sent ++ behind) refl same_length payload in
    let (move, read, v, d, a, dir) =
      recv_move-move_payload m.id axis backwards vel_hold dist behind hv hd in
    (move, ap Controller.recv_move message ∙ read, v, d, a, dir)

module _ {D F : Type 0} (dev : SerialDevice D) (b : Buffer D) (reads : IsBuffered dev b)
    (writes : IsWriter dev b) (takes : IsTaking dev) (board : Board D) (fl : Doubles F)
    (big_endian : Bool) (mck rounds bytes : ℕ) where
  -- A poll dispatches the message that waits, on the object after its ACK was sent.
  pub serve-dispatch :
      (msg : Message) (rest : List ℕ) (s : Stand D)
      → Waits b s.comm msg rest bytes
      → (c : TestStandComm D) × Accepted b s.comm c msg rest
        × (Handlers.serve dev board fl big_endian mck rounds bytes s
            ≡ Handlers.dispatch dev board fl big_endian mck rounds bytes msg.id (with_comm c s))
  unfolding Handlers.serve Comm.check_for_message
  serve-dispatch msg rest s w =
      let (c, out, got) =
        check_for_message-Accepted dev b reads writes takes rounds bytes msg rest s.comm w in
      (
        c,
        got,
        bind-some (on_comm (Comm.check_for_message dev rounds bytes)) _ {s = s}
              (on_comm-some (Comm.check_for_message dev rounds bytes) s serial_ok c out)
            ∙ ap
                (λ id.
                  Handlers.dispatch dev board fl big_endian mck rounds bytes id (with_comm c s))
                got.same_id,
      )

  -- A GET_AXIS_STATE is acknowledged and nothing else happens: no reply is sent.
  pub axis_state_unanswered :
      (msg : Message) (rest : List ℕ) (s : Stand D)
      → msg.id ≡ msg_id_get_axis_state
      → Waits b s.comm msg rest bytes
      → (c : TestStandComm D) × Accepted b s.comm c msg rest
        × (Handlers.serve dev board fl big_endian mck rounds bytes s
            ≡ some (carries_on, with_comm c s))
  unfolding Handlers.dispatch
  axis_state_unanswered msg rest s is_query w =
      let (c, got, run) = serve-dispatch msg rest s w in
      (
        c,
        got,
        run
            ∙ ap
                (λ id.
                  Handlers.dispatch dev board fl big_endian mck rounds bytes id (with_comm c s))
                is_query,
      )

  -- Let a receive buffer lose nothing and let the device take every write. Let the receiver of the
  -- main object be at the start of a message, let the frame of a STOP message wait in its buffer,
  -- and let the poll have fuel for it. Then the poll of the loop returns and carries on, the
  -- status is idle, both axes stand still, and the step timer and the acceleration timer of both
  -- axes are stopped.
  pub stop_arrives :
      (msg : Message) (rest : List ℕ) (s : Stand D)
      → msg.id ≡ msg_id_stop
      → Waits b s.comm msg rest bytes
      → (t : Stand D) × (Handlers.serve dev board fl big_endian mck rounds bytes s
          ≡ some (carries_on, t))
        × (t.status ≡ status_idle)
        × (is_moving t ≡ false)
        × (is_running s.x.io.step t.x.calls ≡ false)
        × (is_running s.x.accel t.x.calls ≡ false)
        × (is_running s.y.io.step t.y.calls ≡ false)
        × (is_running s.y.accel t.y.calls ≡ false)
  unfolding Handlers.dispatch
  stop_arrives msg rest s is_stop w =
      let (c, got, run) = serve-dispatch msg rest s w in
      let (idle, still, x_step, x_accel, y_step, y_accel) = stop_all (with_comm c s) in
      (
        handle_stop (with_comm c s),
        run
            ∙ ap
                (λ id.
                  Handlers.dispatch dev board fl big_endian mck rounds bytes id (with_comm c s))
                is_stop,
        idle,
        still,
        x_step,
        x_accel,
        y_step,
        y_accel,
      )

  -- Let a receive buffer lose nothing and let the device take every write. Let the receiver of the
  -- main object be at the start of a message, let the frame of the MOVE message that the host
  -- builds for an axis, one of the two directions, a velocity and a distance that are uint32_t
  -- wait in its buffer, with more behind it, and let the poll have fuel for it. Then the poll of
  -- the loop takes the message and puts its ACK on the wire, what stood behind it still waits, and
  -- that axis is started with that direction, distance and velocity and the calibrated
  -- acceleration and starting velocity. If the start is accepted, that axis is replaced and the
  -- status is moving; if not, the axes and the status are as they were. What remains of the poll
  -- is the send of the result, after which the firmware carries on.
  pub move_arrives :
      (axis : AxisId) (backwards : Bool) (vel_hold dist : ℕ) (rest : List ℕ) (s : Stand D)
      → vel_hold < 4294967296
      → dist < 4294967296
      → Waits b s.comm (move_msg axis backwards vel_hold dist) rest bytes
      → (c : TestStandComm D) × Accepted b s.comm c (move_msg axis backwards vel_hold dist) rest
        × (Handlers.serve dev board fl big_endian mck rounds bytes s ≡ (
            let (res, a) =
              start_axis mck (named axis (with_comm c s)) (ordered backwards vel_hold dist s.cal) in
            (on_comm (Session.send_message dev rounds bytes (result_msg res)) >>= λ _.
            pure carries_on)
              (underway res axis a (with_comm c s))))
  unfolding Handlers.dispatch Handlers.handle_move Handlers.handle_received_move Handlers.move_axis
      Handlers.reply_axis Controller.axis_result
  move_arrives axis backwards vel_hold dist rest s hv hd w =
      let (c, got, run) = serve-dispatch (move_msg axis backwards vel_hold dist) rest s w in
      let (move, read, v, d, a, dir) =
        move_read c.received_msg axis backwards vel_hold dist hv hd got.same_length
          got.same_payload in
      (
        c,
        got,
        run
            ∙ rw read (rw (ap get_axis a ∙ get_axis-axis_code axis) refl)
            ∙ (ap
                (λ t.
                  (on_comm (Session.send_message dev rounds bytes (result_msg t.0)) >>= λ _.
                  pure carries_on)
                    t.1)
                (begin_move_lem mck move axis (ordered backwards vel_hold dist s.cal)
                  (with_comm c s)
                  (ordered_lem move backwards vel_hold dist (with_comm c s) v d dir))),
      )
