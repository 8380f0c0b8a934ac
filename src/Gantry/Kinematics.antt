-- ===== src/Gantry/Kinematics.antt =====
-- Kinematics.cpp: trapezoidal velocity profiles. All arithmetic is on uint32_t; the distances of a
-- profile are bit patterns of int32_t.
pub mod Profiles
use mpmt_test_stand.Prelude.{
  ℕ, ◌/◌, Bool, true, false, Option, none, some, ◌==◌, ltb, leb, not, ◌&&◌, if◌then◌else◌, sub32,
  mul32, neg32,
}

pub record VelProfile : Type 0 where
  pub dist_accel : ℕ
  pub dist_hold : ℕ
  pub dist_decel : ℕ

unfoldable pub calc_dist_accel : ℕ → ℕ → ℕ → ℕ
calc_dist_accel a v_0 v_f = sub32 (mul32 v_f v_f) (mul32 v_0 v_0) / mul32 2 a

-- Multiplication by `dir`, which is 1 or -1.
unfoldable pub with_sign : Bool → ℕ → ℕ
with_sign neg dist = if neg then neg32 dist else dist

-- The distances before they get a sign: acceleration, holding, deceleration.
pub trapezoid : ℕ → ℕ → VelProfile
trapezoid dist_accel dist_total =
    if ltb dist_total (mul32 dist_accel 2)
    then record {
      dist_accel = dist_total / 2;
      dist_hold = 0;
      dist_decel = sub32 (sub32 dist_total (dist_total / 2)) 0;
    }
    else (let dist_hold = sub32 dist_total (mul32 2 dist_accel) in
        record {
          dist_accel = dist_accel;
          dist_hold = dist_hold;
          dist_decel = sub32 (sub32 dist_total dist_accel) dist_hold;
        })

pub signed_profile : Bool → VelProfile → VelProfile
unfolding with_sign
signed_profile neg p = record {
  dist_accel = with_sign neg p.dist_accel;
  dist_hold = with_sign neg p.dist_hold;
  dist_decel = with_sign neg p.dist_decel;
}

-- `none` where the C++ function returns false and leaves the profile alone
unfoldable pub generate_vel_profile : Bool → ℕ → ℕ → ℕ → ℕ → Option VelProfile
unfolding trapezoid signed_profile
generate_vel_profile neg accel v_start v_hold dist_total =
    if not (accel == 0) && leb v_start v_hold
    then some (signed_profile neg (trapezoid (calc_dist_accel accel v_start v_hold) dist_total))
    else if v_hold == v_start
    then some (record { dist_accel = 0; dist_hold = with_sign neg dist_total; dist_decel = 0 })
    else none
