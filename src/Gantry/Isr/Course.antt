-- ===== src/Gantry/Isr/Course.antt =====
-- A motion under its interrupts: where its segments end, its speed, and the count of pulses.
use mpmt_test_stand.Prelude.{ℕ, ◌≤◌, ◌<◌, ◌≡◌, ◌⊎◌, true, List, [], ◌∷◌, arith, add32}
use mpmt_test_stand.Shared.{axis_ok}
use mpmt_test_stand.Gantry.Kinematics.{VelProfile}
use mpmt_test_stand.Gantry.State.{
  VelSeg, vel_seg_accelerate, vel_seg_hold, vel_seg_decelerate, AxisMotionSpec, Axis,
}
use mpmt_test_stand.Gantry.Axis.{start_axis}
use mpmt_test_stand.Gantry.Isr.{
  Interrupt, encoder, step, accel, ls_home, ls_far, interrupt, interrupts,
}

-- Where a segment ends in a motion that began at `origin`: no error of an earlier segment is in it.
abbrev pub planned : VelSeg → ℕ → VelProfile → ℕ
planned vel_seg_accelerate origin p = add32 origin p.dist_accel
planned vel_seg_hold origin p = add32 origin (add32 p.dist_accel p.dist_hold)
planned vel_seg_decelerate origin p =
    add32 origin (add32 (add32 p.dist_accel p.dist_hold) p.dist_decel)

-- A velocity between the starting and the holding velocity of a motion.
abbrev pub IsWithin : AxisMotionSpec → ℕ → Type 0
IsWithin spec v = (spec.vel_start ≤ v) × ((v ≤ spec.vel_start) ⊎ (v ≤ spec.vel_hold))

-- A moving axis that began at `origin`. Nothing is said of one that stands still.
abbrev pub OnCourse : ℕ → Axis → Type 0
OnCourse origin a =
    a.state.moving ≡ true
    → (a.state.encoder_target ≡ planned a.state.velocity_segment origin a.motion.profile)
      × IsWithin a.motion.spec a.state.next_velocity
      × IsWithin a.motion.spec a.state.velocity
      × (a.state.next_velocity < 4294967296)
      × (a.motion.spec.vel_hold < 4294967296)

pub interrupt-OnCourse :
    (mck origin : ℕ) (i : Interrupt) (a : Axis)
    → OnCourse origin a
    → OnCourse origin (interrupt mck i a)
unfolding interrupt
interrupt-OnCourse mck origin encoder a h m = h m
interrupt-OnCourse mck origin step a h m = ground (arith, h)
interrupt-OnCourse mck origin accel a h m = ground (arith, h)
interrupt-OnCourse mck origin (ls_home level) a h m = cc
interrupt-OnCourse mck origin (ls_far level) a h m = cc

-- What a motion leaves alone while it lasts.
abbrev pub Steady : AxisMotionSpec → VelProfile → Axis → Type 0
Steady spec p a = (a.motion.spec ≡ spec) × (a.motion.profile ≡ p) × (a.state.dir ≡ spec.dir)

pub interrupt-Steady :
    (mck : ℕ) (i : Interrupt) (spec : AxisMotionSpec) (p : VelProfile) (a : Axis)
    → Steady spec p a
    → Steady spec p (interrupt mck i a)
unfolding interrupt
interrupt-Steady mck encoder spec p a h = h
interrupt-Steady mck step spec p a h = ground arith
interrupt-Steady mck accel spec p a h = ground arith
interrupt-Steady mck (ls_home level) spec p a h = h
interrupt-Steady mck (ls_far level) spec p a h = h

pub interrupts_keep :
    (P : Axis → Type 0) (mck : ℕ)
    → ((i : Interrupt) (a : Axis) → P a → P (interrupt mck i a))
    → (is : List Interrupt) (a : Axis) → P a
    → P (interrupts mck is a)
unfolding interrupts
interrupts_keep P mck keep [] a h = h
interrupts_keep P mck keep (i ∷ is) a h =
    interrupts_keep P mck keep is (interrupt mck i a) (keep i a h)

-- Velocities are uint32_t.
abbrev pub IsSpec : AxisMotionSpec → Type 0
IsSpec spec =
    (spec.vel_start < 4294967296) × (spec.vel_hold < 4294967296) × (spec.total_counts < 4294967296)

pub start_axis-OnCourse :
    (mck : ℕ) (a b : Axis) (motion : AxisMotionSpec)
    → IsSpec motion
    → start_axis mck a motion ≡ (axis_ok, b)
    → OnCourse a.state.encoder_current b
unfolding start_axis
start_axis-OnCourse mck a b motion w e = ground arith

pub start_axis-Steady :
    (mck : ℕ) (a b : Axis) (motion : AxisMotionSpec)
    → start_axis mck a motion ≡ (axis_ok, b)
    → Steady motion b.motion.profile b
unfolding start_axis
start_axis-Steady mck a b motion e = ground arith
