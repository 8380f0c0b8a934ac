-- ===== src/Examples/Homing.antt =====
-- A homing from its HOME to its end: both axes hit their home switches, turn around and leave them.
use mpmt_test_stand.Prelude.{◌≡◌, ◌⊎◌, refl, []}
use mpmt_test_stand.Shared.{status_idle, status_fault, axis_x, axis_y}
use mpmt_test_stand.Gantry.Axis.{start_axis, validate_motion}
use mpmt_test_stand.Gantry.Kinematics.{generate_vel_profile}
use mpmt_test_stand.Gantry.Isr.{encoder, ls_home, interrupt}
use mpmt_test_stand.Stand.{Stand, handle_home_a, update_status, axis_interrupt}
use mpmt_test_stand.Stand.Phases.{Course, here, updated, interrupted, Phase}
use mpmt_test_stand.Stand.Homed.{Course-Phase}
use mpmt_test_stand.Stand.Ends.{homing_ends}
use mpmt_test_stand.Examples.Wire.{Wire}
use mpmt_test_stand.Examples.Gantry.{mck}
use mpmt_test_stand.Examples.Stand.{stand_on}

abbrev before : Stand Wire
before = stand_on []

-- The switches are pressed at level 0.
abbrev sought : Stand Wire
sought = axis_interrupt mck axis_y (ls_home 0) (
    axis_interrupt mck axis_x (ls_home 0)
      (axis_interrupt mck axis_x encoder (handle_home_a mck before)))

abbrev left : Stand Wire
left =
    axis_interrupt mck axis_y (ls_home 1)
      (axis_interrupt mck axis_x (ls_home 1) (update_status mck sought))

sought-Course : Course mck (handle_home_a mck before) sought
sought-Course =
    interrupted (interrupted (interrupted here axis_x encoder) axis_x (ls_home 0)) axis_y
      (ls_home 0)

left-Course : Course mck (handle_home_a mck before) left
left-Course =
    interrupted (interrupted (updated sought-Course) axis_x (ls_home 1)) axis_y (ls_home 1)

left_ends : (update_status mck left).status ≡ status_idle
unfolding handle_home_a update_status axis_interrupt interrupt start_axis validate_motion
    generate_vel_profile
left_ends = refl

Course-Phase_example : Phase mck before (update_status mck left)
Course-Phase_example = Course-Phase mck before (updated left-Course)

homing_ends_example :
    ((update_status mck left).status ≡ status_idle)
    ⊎ ((update_status mck left).status ≡ status_fault)
unfolding handle_home_a update_status axis_interrupt interrupt start_axis validate_motion
    generate_vel_profile
homing_ends_example =
    homing_ends mck before sought-Course refl
      (interrupted (interrupted here axis_x (ls_home 1)) axis_y (ls_home 1)) refl
