-- ===== src/Pseudo/Ratio.antt =====
-- Motor steps against encoder counts: the simulated encoder gives 5 counts for 8 steps, which is the
-- ratio that the firmware converts by.
use mpmt_test_stand.Prelude.{
  ℕ, zero, suc, ◌+◌, ◌*◌, ◌<◌, ◌≡◌, refl, ap, List, [], ◌∷◌, ◌++◌, arith, if◌then◌else◌, ◌⊎◌, inl,
  inr,
}
use mpmt_test_stand.Shared.{encoder_counts_per_rev, motor_steps_per_rev}
use mpmt_test_stand.Gantry.State.{AxisMech}
use mpmt_test_stand.Gantry.Axis.{to_counts}
use mpmt_test_stand.Pseudo.{
  PseudoAxis, toggle_encoder_output, setup_pseudo_axis, reset_pseudo_axis, steps,
}

-- The pulse pin goes high and low again for each step.
unfoldable pub step_levels : ℕ → List ℕ
step_levels zero = []
step_levels (suc n) = 1 ∷ 0 ∷ step_levels n

-- The encoder after some levels of the pulse pin, and how often it counted.
unfoldable pub toggles : List ℕ → PseudoAxis → ℕ × PseudoAxis
unfolding toggle_encoder_output
toggles [] a = (0, a)
toggles (level ∷ levels) a =
    let (counted, a') = toggle_encoder_output level a in
    let (n, last) = toggles levels a' in ((if counted then 1 else 0) + n, last)

-- The encoder between two groups of 8 steps.
abbrev pub AtGroup : PseudoAxis → Type 0
AtGroup a =
    (a.steps_for_ratio ≡ steps)
    × (a.changes_to_skip ≡ 6)
    × ((a.change_counter ≡ 0) ⊎ (a.change_counter ≡ 16))

-- An axis with the ratio of `setup` and a given counter.
abbrev counting : ℕ → PseudoAxis → PseudoAxis
counting n a = record a { steps_for_ratio = 8; changes_to_skip = 6; change_counter = n }

from_reset :
    (a : PseudoAxis)
    → ((toggles (step_levels 8) (counting 0 a)).0 ≡ 5)
      × AtGroup (toggles (step_levels 8) (counting 0 a)).1
unfolding toggles step_levels toggle_encoder_output
from_reset a = (refl, (refl, refl, inr refl))

from_group :
    (a : PseudoAxis)
    → ((toggles (step_levels 8) (counting 16 a)).0 ≡ 5)
      × AtGroup (toggles (step_levels 8) (counting 16 a)).1
unfolding toggles step_levels toggle_encoder_output
from_group a = (refl, (refl, refl, inr refl))

-- The next 8 steps.
group_lem :
    (a : PseudoAxis)
    → AtGroup a
    → ((toggles (step_levels 8) a).0 ≡ 5) × AtGroup (toggles (step_levels 8) a).1
group_lem a (s, k, inl c) = let same : a ≡ counting 0 a = cc in rw same (from_reset a)
group_lem a (s, k, inr c) = let same : a ≡ counting 16 a = cc in rw same (from_group a)

toggles-append :
    (xs ys : List ℕ) (a : PseudoAxis)
    → toggles (xs ++ ys) a
      ≡ ((toggles xs a).0 + (toggles ys (toggles xs a).1).0, (toggles ys (toggles xs a).1).1)
unfolding toggles
toggles-append [] ys a = ap (λ n. (n, (toggles ys a).1)) (omega arith)
toggles-append (x ∷ xs) ys a =
    let (counted, a') = toggle_encoder_output x a in
    rw (toggles-append xs ys (toggle_encoder_output x a).1)
      (ap (λ n. (n, (toggles ys (toggles xs (toggle_encoder_output x a).1).1).1)) (omega arith))

step_levels-add : (m n : ℕ) → step_levels (m + n) ≡ step_levels m ++ step_levels n
unfolding step_levels
step_levels-add zero n = ap step_levels (omega arith)
step_levels-add (suc m) n =
    let sum : suc m + n ≡ suc (m + n) = omega arith in rw sum (rw (step_levels-add m n) refl)

no_steps :
    (a : PseudoAxis)
    → AtGroup a
    → ((toggles (step_levels 0) a).0 ≡ 0) × AtGroup (toggles (step_levels 0) a).1
unfolding toggles step_levels
no_steps a h = (refl, h)

groups_lem :
    (k : ℕ) (a : PseudoAxis)
    → AtGroup a
    → ((toggles (step_levels (8 * k)) a).0 ≡ 5 * k) × AtGroup (toggles (step_levels (8 * k)) a).1
groups_lem zero a h = no_steps a h
groups_lem (suc k) a h =
    let split : 8 * suc k ≡ 8 + 8 * k = omega arith in
    let (five, next) = group_lem a h in
    let (rest, last) = groups_lem k (toggles (step_levels 8) a).1 next in
    rw split (
      rw (step_levels-add 8 (8 * k))
        (rw (toggles-append (step_levels 8) (step_levels (8 * k)) a) (omega arith, last)))

-- Let an axis of the firmware convert with the counts and steps per revolution of shared_defs.h.
-- For 8 k steps, as long as 500 times their number is a uint32_t, the simulated encoder counts
-- after `setup` exactly as often as the firmware computes for that many steps.
pub ratio_lem :
    (k pulse_pin encoder_pin dir_pin home_pin far_pin : ℕ) (mech : AxisMech)
    → mech.counts_per_rev ≡ encoder_counts_per_rev
    → mech.steps_per_rev ≡ motor_steps_per_rev
    → 8 * k * encoder_counts_per_rev < 4294967296
    → (toggles
        (step_levels (8 * k))
        (setup_pseudo_axis pulse_pin encoder_pin dir_pin home_pin far_pin)).0
      ≡ to_counts mech (8 * k)
unfolding setup_pseudo_axis reset_pseudo_axis
ratio_lem k pulse_pin encoder_pin dir_pin home_pin far_pin mech c r fits =
    let (counted, _) =
      groups_lem k (setup_pseudo_axis pulse_pin encoder_pin dir_pin home_pin far_pin)
        (refl, refl, inl refl) in
    rw counted (rw c (rw r (omega arith)))
