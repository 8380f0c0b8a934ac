-- ===== src/Stand/Phases.antt =====
-- The homing routine from its HOME on: updates of the status, interrupts of the axes, and polls of the
-- serial port that leave all but the communication alone, in any order.
use mpmt_test_stand.Prelude.{ℕ, ◌≡◌, refl, true, false, arith, ◌&&◌}
use mpmt_test_stand.Shared.{
  status_idle, status_homing, status_fault, axis_dir_negative, axis_dir_positive, AxisId,
  Calibration,
}
use mpmt_test_stand.Gantry.State.{AxisMotionSpec, Axis}
use mpmt_test_stand.Gantry.Axis.{start_axis, stop_axis, reset_axis}
use mpmt_test_stand.Gantry.Isr.{Interrupt, interrupt}
use mpmt_test_stand.Serial.Exec.{TestStandComm}
use mpmt_test_stand.Stand.{
  Stand, with_status, with_comm, is_moving, handle_home_b, update_status, axis_interrupt,
}

-- What may follow the stand `s`.
pub data Course {D : Type 0} (mck : ℕ) (s : Stand D) : Stand D → Type 0 where
  here : Course mck s s
  updated : {t : Stand D} → Course mck s t → Course mck s (update_status mck t)
  interrupted :
      {t : Stand D}
      → Course mck s t
      → (axis : AxisId) (i : Interrupt) → Course mck s (axis_interrupt mck axis i t)
  exchanged : {t : Stand D} → Course mck s t → (c : TestStandComm D) → Course mck s (with_comm c t)

-- The axis `b` is `a` after interrupts.
pub data Ran (mck : ℕ) (a : Axis) : Axis → Type 0 where
  untouched : Ran mck a a
  then : {b : Axis} → Ran mck a b → (i : Interrupt) → Ran mck a (interrupt mck i b)

-- The motion towards the home switches, and the one away from them.
abbrev pub homeward : Calibration → AxisMotionSpec
homeward cal = record {
  dir = axis_dir_negative;
  total_counts = 2147483647;
  accel = cal.cal_gantry.accel;
  vel_start = cal.cal_gantry.vel_start;
  vel_hold = cal.cal_gantry.vel_home;
}

abbrev pub away : Calibration → AxisMotionSpec
away cal = record {
  dir = axis_dir_positive;
  total_counts = 2147483647;
  accel = cal.cal_gantry.accel;
  vel_start = cal.cal_gantry.vel_start;
  vel_hold = cal.cal_gantry.vel_home;
}

-- An axis that was told to start a motion, and stands still after interrupts.
pub record Stopped (mck : ℕ) (motion : AxisMotionSpec) (a b : Axis) : Type 0 where
  pub ran : Ran mck (start_axis mck a motion).1 b
  pub still : b.state.moving ≡ false

-- An axis whose position was set to 0 while it stood still.
pub record Zeroed (a b : Axis) : Type 0 where
  pub at_zero : b.state.encoder_current ≡ 0
  pub still : b.state.moving ≡ false
  pub same_home : b.state.ls_home_pressed ≡ a.state.ls_home_pressed
  pub same_far : b.state.ls_far_pressed ≡ a.state.ls_far_pressed

-- How far the homing of `s` has come in `t`, with the axes at the ends of its halves.
pub data Phase {D : Type 0} (mck : ℕ) (s t : Stand D) : Type 0 where
  seeking :
      t.status ≡ status_homing
      → t.home_a_done ≡ false
      → t.cal ≡ s.cal
      → Ran mck (start_axis mck s.x (homeward s.cal)).1 t.x
      → Ran mck (start_axis mck s.y (homeward s.cal)).1 t.y
      → Phase mck s t
  lost :
      (x y : Axis)
      → t.status ≡ status_fault
      → Stopped mck (homeward s.cal) s.x x
      → Stopped mck (homeward s.cal) s.y y
      → x.state.ls_home_pressed && y.state.ls_home_pressed ≡ false
      → Ran mck x t.x
      → Ran mck y t.y
      → Phase mck s t
  leaving :
      (x y : Axis)
      → t.status ≡ status_homing
      → t.home_a_done ≡ true
      → Stopped mck (homeward s.cal) s.x x
      → Stopped mck (homeward s.cal) s.y y
      → x.state.ls_home_pressed ≡ true
      → y.state.ls_home_pressed ≡ true
      → Ran mck (start_axis mck x (away s.cal)).1 t.x
      → Ran mck (start_axis mck y (away s.cal)).1 t.y
      → Phase mck s t
  homed :
      (x y x' y' x0 y0 : Axis)
      → t.status ≡ status_idle
      → Stopped mck (homeward s.cal) s.x x
      → Stopped mck (homeward s.cal) s.y y
      → x.state.ls_home_pressed ≡ true
      → y.state.ls_home_pressed ≡ true
      → Stopped mck (away s.cal) x x'
      → Stopped mck (away s.cal) y y'
      → Zeroed x' x0
      → Zeroed y' y0
      → Ran mck x0 t.x
      → Ran mck y0 t.y
      → Phase mck s t

pub reset_axis-Zeroed : (a : Axis) → Zeroed a (reset_axis a)
unfolding reset_axis stop_axis
reset_axis-Zeroed a = record { at_zero = refl; still = refl; same_home = refl; same_far = refl }

module _ {D : Type 0} (mck : ℕ) (s t : Stand D) where
  pub both_still : is_moving t ≡ false → (t.x.state.moving ≡ false) × (t.y.state.moving ≡ false)
  both_still m = ground arith

  pub both_pressed :
      t.x.state.ls_home_pressed && t.y.state.ls_home_pressed ≡ true
      → (t.x.state.ls_home_pressed ≡ true) × (t.y.state.ls_home_pressed ≡ true)
  both_pressed p = ground arith

  pub ends_found :
      t.status ≡ status_homing
      → t.home_a_done ≡ false
      → is_moving t ≡ false
      → t.x.state.ls_home_pressed && t.y.state.ls_home_pressed ≡ true
      → update_status mck t ≡ handle_home_b mck t
  unfolding update_status
  ends_found h d m p = rw (h, d, m, p) refl

  pub ends_lost :
      t.status ≡ status_homing
      → t.home_a_done ≡ false
      → is_moving t ≡ false
      → t.x.state.ls_home_pressed && t.y.state.ls_home_pressed ≡ false
      → update_status mck t ≡ with_status status_fault t
  unfolding update_status
  ends_lost h d m p = rw (h, d, m, p) refl

  pub ends_homed :
      t.status ≡ status_homing
      → t.home_a_done ≡ true
      → is_moving t ≡ false
      → update_status mck t ≡ record t {
        x = reset_axis t.x;
        y = reset_axis t.y;
        status = status_idle;
        home_a_done = false;
      }
  unfolding update_status
  ends_homed h d m = rw (h, d, m) refl

  pub update_lost : t.status ≡ status_fault → update_status mck t ≡ t
  unfolding update_status
  update_lost h = rw h refl

  pub update_idle : t.status ≡ status_idle → update_status mck t ≡ t
  unfolding update_status
  update_idle h = rw h refl
