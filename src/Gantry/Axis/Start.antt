-- ===== src/Gantry/Axis/Start.antt =====
-- What `start_axis` accepts and refuses.
use mpmt_test_stand.Prelude.{ℕ, ◌≡◌, ◌≢◌, false, ◌&&◌, arith, none}
use mpmt_test_stand.Shared.{axis_ok}
use mpmt_test_stand.Gantry.State.{AxisMotionSpec, Axis}
use mpmt_test_stand.Gantry.Axis.{is_positive, is_negative, profile_of, start_axis, validate_motion}

-- A motion that is refused, for whatever reason, leaves the axis as it was and makes no hardware
-- call.
pub refused_unchanged :
    (mck : ℕ) (a : Axis) (motion : AxisMotionSpec)
    → (start_axis mck a motion).0 ≢ axis_ok
    → (start_axis mck a motion).1 ≡ a
unfolding start_axis
refused_unchanged mck a motion h = ground arith

-- A motion is accepted exactly if the axis stands still, the limit switch that the motion goes
-- towards is not pressed, and a velocity profile exists for it.
pub accepted_lem :
    (mck : ℕ) (a : Axis) (motion : AxisMotionSpec)
    → ((start_axis mck a motion).0 ≡ axis_ok
        → (a.state.moving ≡ false)
          × (is_positive motion.dir && a.state.ls_far_pressed ≡ false)
          × (is_negative motion.dir && a.state.ls_home_pressed ≡ false)
          × (profile_of a motion ≢ none))
      × ((a.state.moving ≡ false)
          → (is_positive motion.dir && a.state.ls_far_pressed ≡ false)
          → (is_negative motion.dir && a.state.ls_home_pressed ≡ false)
          → (profile_of a motion ≢ none)
          → (start_axis mck a motion).0 ≡ axis_ok)
unfolding start_axis validate_motion
accepted_lem mck a motion = (ground arith, ground arith)
