-- ===== src/Gantry/Kinematics/Profiles.antt =====
-- What a velocity profile promises.
use mpmt_test_stand.Prelude.{
  ℕ, ◌+◌, ◌*◌, ◌-◌, ◌/◌, ◌≤◌, ◌<◌, ◌≡◌, ◌≢◌, Bool, true, false, none, some, arith, ◌⊎◌, ◌↔◌, add32,
  sub32, mul32,
}
use mpmt_test_stand.Gantry.Kinematics.{
  VelProfile, calc_dist_accel, with_sign, trapezoid, signed_profile, generate_vel_profile,
}

trapezoid_total :
    (a total : ℕ)
    → a < 4294967296
    → total < 4294967296
    → let p = trapezoid a total in add32 (add32 p.dist_accel p.dist_hold) p.dist_decel ≡ total
unfolding trapezoid
trapezoid_total a total h k = ground arith

with_sign_sum :
    (neg : Bool) (a h d total : ℕ)
    → a < 4294967296
    → h < 4294967296
    → d < 4294967296
    → total < 4294967296
    → add32 (add32 a h) d ≡ total
    → add32 (add32 (with_sign neg a) (with_sign neg h)) (with_sign neg d) ≡ with_sign neg total
unfolding with_sign
with_sign_sum true a h d total la lh ld lt e = omega arith
with_sign_sum false a h d total la lh ld lt e = e

abbrev IsWords : VelProfile → Type 0
IsWords p = (p.dist_accel < 4294967296) × (p.dist_hold < 4294967296) × (p.dist_decel < 4294967296)

trapezoid-IsWords :
    (a total : ℕ) → a < 4294967296 → total < 4294967296 → IsWords (trapezoid a total)
unfolding trapezoid
trapezoid-IsWords a total h k = ground arith

calc_dist_accel-lt : (a v_0 v_f : ℕ) → calc_dist_accel a v_0 v_f < 4294967296
unfolding calc_dist_accel
calc_dist_accel-lt a v_0 v_f = grind arith

signed_trapezoid_total :
    (neg : Bool) (a total : ℕ)
    → a < 4294967296
    → total < 4294967296
    → let p = signed_profile neg (trapezoid a total) in
      add32 (add32 p.dist_accel p.dist_hold) p.dist_decel ≡ with_sign neg total
unfolding signed_profile
signed_trapezoid_total neg a total h k =
    let (la, lh, ld) = trapezoid-IsWords a total h k in
    with_sign_sum neg _ _ _ total la lh ld k (trapezoid_total a total h k)

-- For a distance that is a uint32_t, the three distances of a profile that is made add up to the
-- signed distance, as int32_t.
pub generate_vel_profile_total :
    (neg : Bool) (accel v_start v_hold total : ℕ) (p : VelProfile)
    → total < 4294967296
    → generate_vel_profile neg accel v_start v_hold total ≡ some p
    → add32 (add32 p.dist_accel p.dist_hold) p.dist_decel ≡ with_sign neg total
unfolding generate_vel_profile with_sign
generate_vel_profile_total neg accel v_start v_hold total p h e =
    let a = calc_dist_accel accel v_start v_hold in
    ground (arith, signed_trapezoid_total neg a total (calc_dist_accel-lt accel v_start v_hold) h)

-- A profile is made exactly if the acceleration is not 0 and the starting velocity is at most the
-- holding velocity, or if the two velocities are equal.
pub generate_vel_profile-IsSome :
    (neg : Bool) (accel v_start v_hold total : ℕ)
    → (generate_vel_profile neg accel v_start v_hold total ≢ none)
      ↔ (((accel ≢ 0) × (v_start ≤ v_hold)) ⊎ (v_hold ≡ v_start))
unfolding generate_vel_profile
generate_vel_profile-IsSome neg accel v_start v_hold total = (λ h. ground arith, λ h. ground arith)

-- Below 2^16 the squares fit, and the distance is the one of the formula.
calc_dist_accel_exact :
    (a v_0 v_f : ℕ)
    → a < 2147483648
    → v_0 ≤ v_f
    → v_f < 65536
    → calc_dist_accel a v_0 v_f ≡ (v_f * v_f - v_0 * v_0) / (2 * a)
unfolding calc_dist_accel
calc_dist_accel_exact a v_0 v_f h k l =
    let high : v_f * v_f < 4294967296 = grind arith in
    let low : v_0 * v_0 ≤ v_f * v_f = grind arith in
    let top : sub32 (mul32 v_f v_f) (mul32 v_0 v_0) ≡ v_f * v_f - v_0 * v_0 = omega arith in
    let bottom : mul32 2 a ≡ 2 * a = omega arith in rw (top, bottom)

pub record IsTrapezoid (full total : ℕ) (p : VelProfile) : Type 0 where
  pub covers : p.dist_accel + p.dist_hold + p.dist_decel ≡ total
  pub symmetric : (p.dist_accel ≤ p.dist_decel) × (p.dist_decel ≤ p.dist_accel + 1)
  pub reaches : (2 * full ≤ total) → p.dist_accel ≡ full
  pub triangle : total < 2 * full → (p.dist_hold ≡ 0) × (p.dist_accel ≡ total / 2)

trapezoid-IsTrapezoid :
    (full total : ℕ)
    → full < 2147483648
    → total < 4294967296
    → IsTrapezoid full total (trapezoid full total)
unfolding trapezoid
trapezoid-IsTrapezoid full total h k = ground arith

half_square : (a s : ℕ) → 0 < a → s < 4294967296 → s / (2 * a) < 2147483648
half_square a s h k = grind arith

-- For an acceleration from 1 to 2^31 - 1, a starting velocity that is at most the holding
-- velocity, a holding velocity below 2^16 and a distance that is a uint32_t, a profile is made.
-- Before its sign its distances add up to the distance, acceleration and deceleration differ by at
-- most one count, and the acceleration is the full one of the kinematic formula where the distance
-- has room for it twice, and otherwise half of the distance with nothing held.
pub generate_vel_profile-IsTrapezoid :
    (neg : Bool) (accel v_start v_hold total : ℕ)
    → 0 < accel
    → accel < 2147483648
    → v_start ≤ v_hold
    → v_hold < 65536
    → total < 4294967296
    → (p : VelProfile) × (generate_vel_profile neg accel v_start v_hold total
        ≡ some (signed_profile neg p))
      × IsTrapezoid ((v_hold * v_hold - v_start * v_start) / (2 * accel)) total p
unfolding generate_vel_profile
generate_vel_profile-IsTrapezoid neg accel v_start v_hold total pos h k l t =
    let exact = calc_dist_accel_exact accel v_start v_hold h k l in
    let full = (v_hold * v_hold - v_start * v_start) / (2 * accel) in
    let small : v_hold * v_hold < 4294967296 = grind arith in
    (
      trapezoid (calc_dist_accel accel v_start v_hold) total,
      ground arith,
      rw exact (
          trapezoid-IsTrapezoid full total
            (half_square accel (v_hold * v_hold - v_start * v_start) pos (omega arith)) t),
    )
