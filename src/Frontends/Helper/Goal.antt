-- ===== src/Frontends/Helper/Goal.antt =====
-- Where a move that the front end commands ends.
use mpmt_test_stand.Prelude.{ℕ, ◌<◌, ◌≡◌, subst, true, false, List, arith, add32, sub32}
use mpmt_test_stand.Shared.{axis_ok}
use mpmt_test_stand.Gantry.Kinematics.{with_sign}
use mpmt_test_stand.Gantry.State.{AxisMotionSpec, Axis}
use mpmt_test_stand.Gantry.Axis.{is_negative, reached_target, start_axis}
use mpmt_test_stand.Gantry.Isr.{Interrupt, interrupts, handle_isr_accel}
use mpmt_test_stand.Gantry.Isr.Stop.{stop_at_goal}
use mpmt_test_stand.Frontends.{Arith}
use mpmt_test_stand.Frontends.Helper.{get_direction, abs32, mm_to_cts, mm_to_steps}

-- The distance, in its direction, from the current counts.
goal_lem :
    (target cur : ℕ)
    → target < 4294967296
    → cur < 4294967296
    → let disp = sub32 target cur in
      add32 cur (with_sign (is_negative (get_direction disp)) (abs32 disp)) ≡ target
unfolding with_sign get_direction abs32
goal_lem target cur t c = ground arith

abs32-lt : (n : ℕ) → n < 4294967296 → abs32 n < 4294967296
unfolding abs32
abs32-lt n h = ground arith

-- The motion that the controller starts for a command of the front end, with its own acceleration and
-- starting velocity.
abbrev pub commanded_motion : ℕ → ℕ → ℕ → ℕ → ℕ → AxisMotionSpec
commanded_motion target cur vel_hold accel vel_start =
    let disp = sub32 target cur in
    record {
      dir = get_direction disp;
      total_counts = abs32 disp;
      accel = accel;
      vel_start = vel_start;
      vel_hold = vel_hold;
    }

-- Let the front end command an axis to a destination from the current position of the encoder,
-- with counts and velocities that are 32-bit words, and the firmware accept the motion. If, after
-- any interrupts in any order, the axis still moves and the acceleration timer then ends the
-- motion, the position is at or past the counts of the destination, in the direction of the
-- command and as int32_t.
pub move_ends_at_target :
    {F G : Type 0} (fl : Arith F G) (pulley_dia dest_mm vel_mm_s : F) (mck accel vel_start : ℕ)
    (a b : Axis) (is : List Interrupt)
    → let target = mm_to_cts fl pulley_dia dest_mm in
      let vel_hold = mm_to_steps fl pulley_dia vel_mm_s in
      let motion = commanded_motion target a.state.encoder_current vel_hold accel vel_start in
      target < 4294967296
      → a.state.encoder_current < 4294967296
      → vel_start < 4294967296
      → vel_hold < 4294967296
      → start_axis mck a motion ≡ (axis_ok, b)
      → (interrupts mck is b).state.moving ≡ true
      → (handle_isr_accel (interrupts mck is b)).state.moving ≡ false
      → reached_target motion.dir (interrupts mck is b).state.encoder_current target ≡ true
move_ends_at_target fl pulley_dia dest_mm vel_mm_s mck accel vel_start a b is t c s v e m h =
    let target = mm_to_cts fl pulley_dia dest_mm in
    let cur = a.state.encoder_current in
    let motion = commanded_motion target cur (mm_to_steps fl pulley_dia vel_mm_s) accel vel_start in
    subst (λ g. reached_target motion.dir (interrupts mck is b).state.encoder_current g ≡ true)
      (goal_lem target cur t c)
      (stop_at_goal mck a b motion is (s, v, abs32-lt (sub32 target cur) (omega arith)) e m h)
