-- ===== src/Gantry/Isr/Stop.antt =====
-- Where a motion ends, how fast it goes, and what its encoder has counted.
use mpmt_test_stand.Prelude.{
  ℕ, ◌≤◌, ◌<◌, ◌≡◌, ◌⊎◌, refl, Bool, true, false, some, List, [], ◌∷◌, arith, add32, if◌then◌else◌,
  ◌∙◌,
}
use mpmt_test_stand.Shared.{AxisDirection, axis_dir_positive, axis_dir_negative, axis_ok}
use mpmt_test_stand.Gantry.Kinematics.{with_sign}
use mpmt_test_stand.Gantry.Kinematics.Profiles.{generate_vel_profile_total}
use mpmt_test_stand.Gantry.State.{vel_seg_decelerate, AxisMotionSpec, Axis}
use mpmt_test_stand.Gantry.Axis.{is_negative, reached_target, profile_of, start_axis}
use mpmt_test_stand.Gantry.Isr.{
  Interrupt, encoder, step, accel, ls_home, ls_far, interrupt, interrupts, handle_isr_accel,
}
use mpmt_test_stand.Gantry.Isr.Course.{
  OnCourse, Steady, IsSpec, interrupt-OnCourse, interrupt-Steady, interrupts_keep,
  start_axis-OnCourse, start_axis-Steady,
}

start_axis-profile_of :
    (mck : ℕ) (a b : Axis) (motion : AxisMotionSpec)
    → start_axis mck a motion ≡ (axis_ok, b)
    → profile_of a motion ≡ some b.motion.profile
unfolding start_axis
start_axis-profile_of mck a b motion e = ground arith

handle_isr_accel_stops :
    (a : Axis)
    → a.state.moving ≡ true
    → (handle_isr_accel a).state.moving ≡ false
    → (a.state.velocity_segment ≡ vel_seg_decelerate)
      × (reached_target a.state.dir a.state.encoder_current a.state.encoder_target ≡ true)
unfolding handle_isr_accel
handle_isr_accel_stops a m s = ground arith

-- Let a motion be accepted, with velocities and distance that are uint32_t. If, after any
-- interrupts in any order, the axis still moves and the acceleration timer then ends the motion,
-- the position is at or past the position of the start plus the signed distance, in the direction
-- of the motion and as int32_t.
pub stop_at_goal :
    (mck : ℕ) (a b : Axis) (motion : AxisMotionSpec) (is : List Interrupt)
    → IsSpec motion
    → start_axis mck a motion ≡ (axis_ok, b)
    → (interrupts mck is b).state.moving ≡ true
    → (handle_isr_accel (interrupts mck is b)).state.moving ≡ false
    → reached_target motion.dir
        (interrupts mck is b).state.encoder_current
        (add32 a.state.encoder_current (with_sign (is_negative motion.dir) motion.total_counts))
      ≡ true
stop_at_goal mck a b motion is w e m s =
    let origin = a.state.encoder_current in
    let p = b.motion.profile in
    let c = interrupts mck is b in
    let course =
      interrupts_keep (OnCourse origin) mck (interrupt-OnCourse mck origin) is b
        (start_axis-OnCourse mck a b motion w e) in
    let steady =
      interrupts_keep (Steady motion p) mck (λ i. interrupt-Steady mck i motion p) is b
        (start_axis-Steady mck a b motion e) in
    let total =
      generate_vel_profile_total _ _ _ _ _ p w.2 (start_axis-profile_of mck a b motion e) in
    let (decelerating, reached) = handle_isr_accel_stops c m s in
    ground (arith, course m, steady, total, decelerating, reached)

-- Let a motion be accepted, with velocities and distance that are uint32_t. While the axis moves,
-- after any interrupts in any order, its velocity and the next one that it is to have are each at
-- least the starting velocity, and at most the starting velocity or at most the holding velocity.
pub speed_limits :
    (mck : ℕ) (a b : Axis) (motion : AxisMotionSpec) (is : List Interrupt)
    → IsSpec motion
    → start_axis mck a motion ≡ (axis_ok, b)
    → (interrupts mck is b).state.moving ≡ true
    → let s = (interrupts mck is b).state in
      (motion.vel_start ≤ s.velocity)
      × ((s.velocity ≤ motion.vel_start) ⊎ (s.velocity ≤ motion.vel_hold))
      × (motion.vel_start ≤ s.next_velocity)
      × ((s.next_velocity ≤ motion.vel_start) ⊎ (s.next_velocity ≤ motion.vel_hold))
speed_limits mck a b motion is w e m =
    let origin = a.state.encoder_current in
    let p = b.motion.profile in
    let course =
      interrupts_keep (OnCourse origin) mck (interrupt-OnCourse mck origin) is b
        (start_axis-OnCourse mck a b motion w e) in
    let steady =
      interrupts_keep (Steady motion p) mck (λ i. interrupt-Steady mck i motion p) is b
        (start_axis-Steady mck a b motion e) in
    ground (arith, course m, steady)

-- The pulses among some interrupts, as uint32_t.
pub pulses : List Interrupt → ℕ
pulses [] = 0
pulses (encoder ∷ is) = add32 (pulses is) 1
pulses (_ ∷ is) = pulses is

abbrev travel : Bool → AxisDirection
travel neg = if neg then axis_dir_negative else axis_dir_positive

-- One interrupt: the direction stays, and only a pulse moves the count.
interrupt-encoder_current :
    (mck : ℕ) (i : Interrupt) (is : List Interrupt) (neg : Bool) (a : Axis)
    → a.state.dir ≡ travel neg
    → a.state.encoder_current < 4294967296
    → ((interrupt mck i a).state.dir ≡ travel neg)
      × ((interrupt mck i a).state.encoder_current < 4294967296)
      × (add32 (interrupt mck i a).state.encoder_current (with_sign neg (pulses is))
          ≡ add32 a.state.encoder_current (with_sign neg (pulses (i ∷ is))))
unfolding interrupt pulses with_sign
interrupt-encoder_current mck encoder is true a d w = ground arith
interrupt-encoder_current mck encoder is false a d w = ground arith
interrupt-encoder_current mck step is neg a d w = ground arith
interrupt-encoder_current mck accel is neg a d w = ground arith
interrupt-encoder_current mck (ls_home level) is neg a d w = (d, w, refl)
interrupt-encoder_current mck (ls_far level) is neg a d w = (d, w, refl)

no_pulses : (neg : Bool) (n : ℕ) → n < 4294967296 → n ≡ add32 n (with_sign neg (pulses []))
unfolding pulses with_sign
no_pulses true n w = omega arith
no_pulses false n w = omega arith

-- Let an axis have one of the two directions. After any interrupts in any order, its position is
-- the position before plus or minus the number of encoder pulses among them, as int32_t.
pub encoder_counts :
    (mck : ℕ) (is : List Interrupt) (neg : Bool) (a : Axis)
    → a.state.dir ≡ travel neg
    → a.state.encoder_current < 4294967296
    → (interrupts mck is a).state.encoder_current
      ≡ add32 a.state.encoder_current (with_sign neg (pulses is))
unfolding interrupts
encoder_counts mck [] neg a d w = no_pulses neg a.state.encoder_current w
encoder_counts mck (i ∷ is) neg a d w =
    let (d', w', e) = interrupt-encoder_current mck i is neg a d w in
    encoder_counts mck is neg (interrupt mck i a) d' w' ∙ e
