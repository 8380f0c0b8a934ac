-- ===== src/Stand/Orders.antt =====
-- What a MOVE orders, and what its start makes of the stand.
use mpmt_test_stand.Prelude.{ℕ, ◌≡◌, ◌≢◌, refl, ap, ◌∙◌, Bool, [], ◌∷◌, if◌then◌else◌}
use mpmt_test_stand.Shared.{
  AxisId, axis_x, axis_y, AxisDirection, axis_dir_positive, axis_dir_negative, cast_direction,
  MoveMsgData, status_moving, AxisResult, axis_ok, axis_err_already_moving, axis_err_ls_home,
  axis_err_ls_far, axis_err_invalid, axis_result_code, Calibration, msg_id_axis_result,
}
use mpmt_test_stand.Gantry.State.{AxisMotionSpec, Axis}
use mpmt_test_stand.Gantry.Axis.{start_axis}
use mpmt_test_stand.Gantry.Axis.Start.{refused_unchanged}
use mpmt_test_stand.Serial.{Message}
use mpmt_test_stand.Stand.{Stand, with_axis, with_status, start, move_motion, begin_move}

abbrev pub direction : Bool → AxisDirection
direction backwards = if backwards then axis_dir_negative else axis_dir_positive

-- The motion that a MOVE orders, with the calibration of the controller.
abbrev pub ordered : Bool → ℕ → ℕ → Calibration → AxisMotionSpec
ordered backwards vel_hold dist cal = record {
  dir = direction backwards;
  total_counts = dist;
  accel = cal.cal_gantry.accel;
  vel_start = cal.cal_gantry.vel_start;
  vel_hold = vel_hold;
}

abbrev pub named : {D : Type 0} → AxisId → Stand D → Axis
named axis_x s = s.x
named axis_y s = s.y

-- The stand after a start of an axis that left `a`.
abbrev pub underway : {D : Type 0} → AxisResult → AxisId → Axis → Stand D → Stand D
underway axis_ok axis_x a s = record s { x = a; status = status_moving }
underway axis_ok axis_y a s = record s { y = a; status = status_moving }
underway _ _ a s = s

abbrev pub result_msg : AxisResult → Message
result_msg res = record { id = msg_id_axis_result; length = 1; payload = axis_result_code res ∷ [] }

pub ordered_lem :
    {D : Type 0} (move : MoveMsgData) (backwards : Bool) (vel_hold dist : ℕ) (s : Stand D)
    → move.vel_hold ≡ vel_hold
    → move.dist_counts ≡ dist
    → cast_direction move.dir ≡ direction backwards
    → move_motion move s ≡ ordered backwards vel_hold dist s.cal
ordered_lem move backwards vel_hold dist s v d dir = cc

replaced : {D : Type 0} (axis : AxisId) (s : Stand D) → with_axis axis (named axis s) s ≡ s
replaced axis_x s = refl
replaced axis_y s = refl

-- A refused start leaves the axis as it was.
settled :
    {D : Type 0} (axis : AxisId) (res : AxisResult) (a : Axis) (s : Stand D)
    → (res ≢ axis_ok → a ≡ named axis s)
    → elim res [ axis_ok ↦ with_status status_moving (with_axis axis a s) | _ ↦ with_axis axis a s ]
      ≡ underway res axis a s
settled axis_x axis_ok a s h = refl
settled axis_y axis_ok a s h = refl
settled axis axis_err_already_moving a s h = rw (h (λ e. cc)) (replaced axis s)
settled axis axis_err_ls_home a s h = rw (h (λ e. cc)) (replaced axis s)
settled axis axis_err_ls_far a s h = rw (h (λ e. cc)) (replaced axis s)
settled axis axis_err_invalid a s h = rw (h (λ e. cc)) (replaced axis s)

-- begin_move after the start
abbrev begun : {D : Type 0} → AxisResult × Stand D → AxisResult × Stand D
begun (res, after) = (res, elim res [ axis_ok ↦ with_status status_moving after | _ ↦ after ])

started_lem :
    {D : Type 0} (mck : ℕ) (axis : AxisId) (motion : AxisMotionSpec) (s : Stand D)
    → begun (start mck axis motion s)
      ≡ (let (res, a) = start_axis mck (named axis s) motion in (res, underway res axis a s))
started_lem mck axis_x motion s =
    let (res, a) = start_axis mck s.x motion in
    ap (λ t. (res, t)) (settled axis_x res a s (refused_unchanged mck s.x motion))
started_lem mck axis_y motion s =
    let (res, a) = start_axis mck s.y motion in
    ap (λ t. (res, t)) (settled axis_y res a s (refused_unchanged mck s.y motion))

pub begin_move_lem :
    {D : Type 0} (mck : ℕ) (move : MoveMsgData) (axis : AxisId) (motion : AxisMotionSpec)
    (s : Stand D)
    → move_motion move s ≡ motion
    → begin_move mck move axis s
      ≡ (let (res, a) = start_axis mck (named axis s) motion in (res, underway res axis a s))
begin_move_lem mck move axis motion s e =
    ap (λ m. begun (start mck axis m s)) e ∙ started_lem mck axis motion s
