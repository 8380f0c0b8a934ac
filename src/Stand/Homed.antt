-- ===== src/Stand/Homed.antt =====
-- Every event of a homing leaves it in one of its phases.
use mpmt_test_stand.Prelude.{ℕ, ◌≡◌, refl, sym, subst, true, false, ◌&&◌, Bool-cases, inl, inr}
use mpmt_test_stand.Shared.{status_homing, axis_x, axis_y, AxisId}
use mpmt_test_stand.Gantry.State.{AxisMotionSpec, Axis}
use mpmt_test_stand.Gantry.Axis.{start_axis, reset_axis}
use mpmt_test_stand.Gantry.Isr.{Interrupt}
use mpmt_test_stand.Serial.Exec.{TestStandComm}
use mpmt_test_stand.Stand.{
  Stand, with_comm, is_moving, handle_home_a, handle_home_b, update_status, axis_interrupt,
}
use mpmt_test_stand.Stand.Homing.{homing_waits}
use mpmt_test_stand.Stand.Phases.{
  Course, here, updated, interrupted, exchanged, Ran, untouched, then, homeward, away, Stopped,
  Phase, seeking, lost, leaving, homed, reset_axis-Zeroed, both_still, both_pressed, ends_found,
  ends_lost, ends_homed, update_lost, update_idle,
}

module _ {D : Type 0} (mck : ℕ) (s : Stand D) where
  handle_home_a-Phase : Phase mck s (handle_home_a mck s)
  unfolding handle_home_a
  handle_home_a-Phase = seeking refl refl refl untouched untouched

  axis_interrupt-Phase :
      (t : Stand D) (axis : AxisId) (i : Interrupt)
      → Phase mck s t
      → Phase mck s (axis_interrupt mck axis i t)
  unfolding axis_interrupt
  axis_interrupt-Phase t axis_x i (seeking h d c rx ry) = seeking h d c (then rx i) ry
  axis_interrupt-Phase t axis_y i (seeking h d c rx ry) = seeking h d c rx (then ry i)
  axis_interrupt-Phase t axis_x i (lost x y h sx sy p rx ry) = lost x y h sx sy p (then rx i) ry
  axis_interrupt-Phase t axis_y i (lost x y h sx sy p rx ry) = lost x y h sx sy p rx (then ry i)
  axis_interrupt-Phase t axis_x i (leaving x y h d sx sy px py rx ry) =
      leaving x y h d sx sy px py (then rx i) ry
  axis_interrupt-Phase t axis_y i (leaving x y h d sx sy px py rx ry) =
      leaving x y h d sx sy px py rx (then ry i)
  axis_interrupt-Phase t axis_x i (homed x y x' y' x0 y0 h sx sy px py sx' sy' zx zy rx ry) =
      homed x y x' y' x0 y0 h sx sy px py sx' sy' zx zy (then rx i) ry
  axis_interrupt-Phase t axis_y i (homed x y x' y' x0 y0 h sx sy px py sx' sy' zx zy rx ry) =
      homed x y x' y' x0 y0 h sx sy px py sx' sy' zx zy rx (then ry i)

  with_comm-Phase :
      (t : Stand D) (c : TestStandComm D) → Phase mck s t → Phase mck s (with_comm c t)
  with_comm-Phase t c (seeking h d e rx ry) = seeking h d e rx ry
  with_comm-Phase t c (lost x y h sx sy p rx ry) = lost x y h sx sy p rx ry
  with_comm-Phase t c (leaving x y h d sx sy px py rx ry) = leaving x y h d sx sy px py rx ry
  with_comm-Phase t c (homed x y x' y' x0 y0 h sx sy px py sx' sy' zx zy rx ry) =
      homed x y x' y' x0 y0 h sx sy px py sx' sy' zx zy rx ry

  stopped :
      (motion : AxisMotionSpec) (a b : Axis)
      → Ran mck (start_axis mck a motion).1 b
      → b.state.moving ≡ false
      → Stopped mck motion a b
  stopped motion a b r m = record { ran = r; still = m }

  -- The second half, with the calibration of the first.
  handle_home_b-Phase :
      (t : Stand D)
      → t.cal ≡ s.cal
      → Stopped mck (homeward s.cal) s.x t.x
      → Stopped mck (homeward s.cal) s.y t.y
      → (t.x.state.ls_home_pressed ≡ true) × (t.y.state.ls_home_pressed ≡ true)
      → Phase mck s (handle_home_b mck t)
  unfolding handle_home_b
  handle_home_b-Phase t c sx sy p =
      leaving t.x t.y refl refl sx sy p.0 p.1
        (subst
          (λ cal. Ran mck (start_axis mck t.x (away cal)).1 (start_axis mck t.x (away t.cal)).1) c
          untouched)
        (subst
          (λ cal. Ran mck (start_axis mck t.y (away cal)).1 (start_axis mck t.y (away t.cal)).1) c
          untouched)

  -- A first half that has ended.
  first_half_ends :
      (t : Stand D)
      → t.status ≡ status_homing
      → t.home_a_done ≡ false
      → t.cal ≡ s.cal
      → Stopped mck (homeward s.cal) s.x t.x
      → Stopped mck (homeward s.cal) s.y t.y
      → is_moving t ≡ false
      → Phase mck s (update_status mck t)
  first_half_ends t h d c sx sy m =
      elim (Bool-cases (t.x.state.ls_home_pressed && t.y.state.ls_home_pressed)) [
        | inl p ↦
            subst (Phase mck s) (sym (ends_found mck s t h d m p))
              (handle_home_b-Phase t c sx sy (both_pressed mck s t p))
        | inr p ↦
            subst (Phase mck s) (sym (ends_lost mck s t h d m p))
              (lost t.x t.y refl sx sy p untouched untouched)
      ]

  update_status-Phase : (t : Stand D) → Phase mck s t → Phase mck s (update_status mck t)
  update_status-Phase t (seeking h d c rx ry) = elim (Bool-cases (is_moving t)) [
    | inl m ↦ subst (Phase mck s) (sym (homing_waits mck t h m)) (seeking h d c rx ry)
    | inr m ↦
        (let (mx, my) = both_still mck s t m in
          first_half_ends t h d c (stopped (homeward s.cal) s.x t.x rx mx)
            (stopped (homeward s.cal) s.y t.y ry my) m)
  ]
  update_status-Phase t (lost x y h sx sy p rx ry) =
      subst (Phase mck s) (sym (update_lost mck s t h)) (lost x y h sx sy p rx ry)
  update_status-Phase t (leaving x y h d sx sy px py rx ry) = elim (Bool-cases (is_moving t)) [
    | inl m ↦ subst (Phase mck s) (sym (homing_waits mck t h m)) (leaving x y h d sx sy px py rx ry)
    | inr m ↦
        (let (mx, my) = both_still mck s t m in
          subst (Phase mck s) (sym (ends_homed mck s t h d m)) (
            homed x y t.x t.y (reset_axis t.x) (reset_axis t.y) refl sx sy px py
              (stopped (away s.cal) x t.x rx mx) (stopped (away s.cal) y t.y ry my)
              (reset_axis-Zeroed t.x) (reset_axis-Zeroed t.y) untouched untouched))
  ]
  update_status-Phase t (homed x y x' y' x0 y0 h sx sy px py sx' sy' zx zy rx ry) =
      subst (Phase mck s) (sym (update_idle mck s t h))
        (homed x y x' y' x0 y0 h sx sy px py sx' sy' zx zy rx ry)

  -- After a HOME, and after any updates of the status, interrupts of the axes and polls that
  -- change only the communication, the homing is in one of four phases. It is homing, and its axes
  -- were told to run in the negative direction. Or it is in fault: both axes stood still after
  -- that and not both home switches were pressed. Or it is homing, both axes stood still with
  -- their home switches pressed, and were then told to run in the positive direction. Or it is
  -- idle: both axes stood still again after that, and their positions were then set to 0. Every
  -- motion has the largest int32_t as its distance and the calibrated acceleration, starting and
  -- homing velocity, and between these points there are only interrupts of the axes.
  pub Course-Phase : {t : Stand D} → Course mck (handle_home_a mck s) t → Phase mck s t
  Course-Phase here = handle_home_a-Phase
  Course-Phase (updated r) = update_status-Phase _ (Course-Phase r)
  Course-Phase (interrupted r axis i) = axis_interrupt-Phase _ axis i (Course-Phase r)
  Course-Phase (exchanged r c) = with_comm-Phase _ c (Course-Phase r)
