-- ===== src/Stand/Homing.antt =====
-- The status machine of `execute`: what homing and moving come to, and what a MOVE may do.
use mpmt_test_stand.Prelude.{ℕ, ◌≡◌, Bool, true, false, none, some, arith, ◌<◌}
use mpmt_test_stand.Shared.{status_idle, status_homing, status_moving, MoveMsgData}
use mpmt_test_stand.Gantry.Hardware.{is_running}
use mpmt_test_stand.Gantry.Axis.{stop_axis}
use mpmt_test_stand.Gantry.Isr.Timers.{same_timer_refl}
use mpmt_test_stand.Thermistor.{Doubles, Board}
use mpmt_test_stand.Serial.Device.{SerialDevice}
use mpmt_test_stand.Serial.Controller
use mpmt_test_stand.Stand.{null_axis, Stand, get_axis, is_moving, handle_stop, update_status}
use mpmt_test_stand.Stand.Handlers

module _ {D : Type 0} (mck : ℕ) (s : Stand D) (h : s.status ≡ status_homing) where
  -- While the status is `homing` and an axis moves, an update of the status changes nothing.
  pub homing_waits : is_moving s ≡ true → update_status mck s ≡ s
  unfolding update_status
  homing_waits m = ground (arith, h)

-- When a move has ended with the far switch of the y-axis pressed and no other, an update of the
-- status makes the stand idle.
pub y_far_unseen :
    {D : Type 0}
    → (mck : ℕ) (s : Stand D) → s.status ≡ status_moving
    → is_moving s ≡ false
    → s.x.state.ls_home_pressed ≡ false
    → s.x.state.ls_far_pressed ≡ false
    → s.y.state.ls_home_pressed ≡ false
    → s.y.state.ls_far_pressed ≡ true
    → (update_status mck s).status ≡ status_idle
unfolding update_status
y_far_unseen mck s h m xh xf yh yf = ground arith

-- After a STOP the status is idle, both axes stand still, and the step timer and the acceleration
-- timer of both axes are stopped.
pub stop_all :
    {D : Type 0}
    → (s : Stand D)
    → let t = handle_stop s in
      (t.status ≡ status_idle)
      × (is_moving t ≡ false)
      × (is_running s.x.io.step t.x.calls ≡ false)
      × (is_running s.x.accel t.x.calls ≡ false)
      × (is_running s.y.io.step t.y.calls ≡ false)
      × (is_running s.y.accel t.y.calls ≡ false)
unfolding handle_stop stop_axis is_running
stop_all s = ground (
  arith,
  same_timer_refl s.x.io.step,
  same_timer_refl s.x.accel,
  same_timer_refl s.y.io.step,
  same_timer_refl s.y.accel,
)

get_axis-none : (n : ℕ) → 1 < n → get_axis n ≡ none
get_axis-none n b = ground arith

-- If the received message is a MOVE of the right length whose axis byte is above 1, its handler
-- uses the null pointer and does nothing else.
pub move_null :
    {D F : Type 0}
    → (dev : SerialDevice D) (board : Board D) (fl : Doubles F) (big_endian : Bool)
      (mck rounds bytes : ℕ) (s : Stand D) (move : MoveMsgData)
    → Controller.recv_move s.comm.received_msg ≡ some move
    → 1 < move.axis
    → Handlers.handle_move dev board fl big_endian mck rounds bytes s ≡ some (null_axis, s)
unfolding Handlers.handle_move Handlers.handle_received_move Handlers.move_axis
move_null dev board fl big_endian mck rounds bytes s move e b = rw (e, get_axis-none move.axis b)
