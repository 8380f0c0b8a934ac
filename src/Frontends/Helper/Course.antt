-- ===== src/Frontends/Helper/Course.antt =====
-- The limits of a move, and the command that leads from a position to another.
use mpmt_test_stand.Prelude.{
  ℕ, ◌<◌, ◌≤◌, ◌≡◌, ◌⊎◌, ◌↔◌, true, false, arith, add32, sub32, u32, inl, inr,
}
use mpmt_test_stand.Shared.{AxisDirection, axis_dir_positive, axis_dir_negative}
use mpmt_test_stand.Frontends.{Arith}
use mpmt_test_stand.Frontends.Helper.{get_direction, abs32, validate_move_params}

-- Neither coordinate is below 0 or above 1200 mm, and neither velocity below 0 or above 50 mm/s.
abbrev pub IsWithinLimits : {F G : Type 0} → Arith F G → F × F → F × F → Type 0
IsWithinLimits fl dest_mm vel_mm_s =
    (fl.lt dest_mm.0 (fl.narrow (fl.decimal 0 1)) ≡ false)
    × (fl.lt (fl.narrow (fl.decimal 12000 1)) dest_mm.0 ≡ false)
    × (fl.lt dest_mm.1 (fl.narrow (fl.decimal 0 1)) ≡ false)
    × (fl.lt (fl.narrow (fl.decimal 12000 1)) dest_mm.1 ≡ false)
    × (fl.lt vel_mm_s.0 (fl.narrow (fl.decimal 0 1)) ≡ false)
    × (fl.lt (fl.narrow (fl.decimal 500 1)) vel_mm_s.0 ≡ false)
    × (fl.lt vel_mm_s.1 (fl.narrow (fl.decimal 0 1)) ≡ false)
    × (fl.lt (fl.narrow (fl.decimal 500 1)) vel_mm_s.1 ≡ false)

pub validate_move_params-true :
    {F G : Type 0} (fl : Arith F G) (dest_mm vel_mm_s : F × F)
    → (validate_move_params fl dest_mm vel_mm_s ≡ true) ↔ IsWithinLimits fl dest_mm vel_mm_s
unfolding validate_move_params
validate_move_params-true fl dest_mm vel_mm_s = (λ e. ground arith, λ h. ground arith)

-- A distance in a direction leads from a count to another, the short way around.
abbrev pub Leads : ℕ → ℕ → AxisDirection → ℕ → Type 0
Leads cur target dir dist =
    ((dir ≡ axis_dir_positive) × (dist < 2147483648) × (add32 cur dist ≡ u32 target))
    ⊎ ((dir ≡ axis_dir_negative) × (0 < dist) × (dist ≤ 2147483648) × (sub32 cur dist ≡ u32 target))

pub get_direction-Leads :
    (cur target : ℕ)
    → Leads cur target (get_direction (sub32 target cur)) (abs32 (sub32 target cur))
unfolding get_direction abs32
get_direction-Leads cur target = ground arith

pub Leads-unique :
    (cur target : ℕ) (dir : AxisDirection) (dist : ℕ)
    → Leads cur target dir dist
    → (get_direction (sub32 target cur) ≡ dir) × (abs32 (sub32 target cur) ≡ dist)
unfolding get_direction abs32
Leads-unique cur target dir dist (inl h) = (ground (arith, h), ground (arith, h))
Leads-unique cur target dir dist (inr h) = (ground (arith, h), ground (arith, h))
