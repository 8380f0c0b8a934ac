-- ===== src/Stand/Ends.antt =====
-- A homing comes to its end when its axes have stood still twice.
use mpmt_test_stand.Prelude.{
  ℕ, ◌≡◌, ◌⊎◌, ◌∙◌, ap, refl, subst, sym, true, false, ◌&&◌, Bool-cases, inl, inr,
}
use mpmt_test_stand.Shared.{status_idle, status_homing, status_fault, AxisId, axis_x, axis_y}
use mpmt_test_stand.Gantry.Isr.{Interrupt}
use mpmt_test_stand.Stand.{
  Stand, is_moving, handle_home_a, handle_home_b, update_status, axis_interrupt,
}
use mpmt_test_stand.Stand.Homing.{homing_waits}
use mpmt_test_stand.Stand.Phases.{
  Course, here, updated, interrupted, exchanged, Phase, seeking, lost, leaving, homed, ends_found,
  ends_lost, ends_homed, update_lost, update_idle,
}
use mpmt_test_stand.Stand.Homed.{Course-Phase}

-- The homing is over, or in its second half.
abbrev IsPast : {D : Type 0} → Stand D → Type 0
IsPast t =
    (t.status ≡ status_idle)
    ⊎ (t.status ≡ status_fault)
    ⊎ ((t.status ≡ status_homing) × (t.home_a_done ≡ true))

abbrev IsOver : {D : Type 0} → Stand D → Type 0
IsOver t = (t.status ≡ status_idle) ⊎ (t.status ≡ status_fault)

module _ {D : Type 0} (mck : ℕ) where
  handle_home_b-IsPast : (t : Stand D) → IsPast (handle_home_b mck t)
  unfolding handle_home_b
  handle_home_b-IsPast t = inr (inr (refl, refl))

  axis_interrupt-IsPast :
      (t : Stand D) (axis : AxisId) (i : Interrupt)
      → IsPast t
      → IsPast (axis_interrupt mck axis i t)
  unfolding axis_interrupt
  axis_interrupt-IsPast t axis_x i h = h
  axis_interrupt-IsPast t axis_y i h = h

  -- An update while both axes stand still ends what is past its first half.
  update_status-IsOver :
      (t : Stand D) → IsPast t → is_moving t ≡ false → IsOver (update_status mck t)
  update_status-IsOver t (inl h) m = inl (ap (λ r. r.status) (update_idle mck t t h) ∙ h)
  update_status-IsOver t (inr (inl h)) m = inr (ap (λ r. r.status) (update_lost mck t t h) ∙ h)
  update_status-IsOver t (inr (inr (h, d))) m = inl (ap (λ r. r.status) (ends_homed mck t t h d m))

  over-IsPast : (t : Stand D) → IsOver t → IsPast t
  over-IsPast t (inl h) = inl h
  over-IsPast t (inr h) = inr (inl h)

  waits : (t : Stand D) → IsPast t → is_moving t ≡ true → IsPast (update_status mck t)
  waits t (inl h) m =
      over-IsPast (update_status mck t) (inl (ap (λ r. r.status) (update_idle mck t t h) ∙ h))
  waits t (inr (inl h)) m =
      over-IsPast (update_status mck t) (inr (ap (λ r. r.status) (update_lost mck t t h) ∙ h))
  waits t (inr (inr (h, d))) m = subst IsPast (sym (homing_waits mck t h m)) (inr (inr (h, d)))

  update_status-IsPast : (t : Stand D) → IsPast t → IsPast (update_status mck t)
  update_status-IsPast t h = elim (Bool-cases (is_moving t)) [
    | inr m ↦ over-IsPast (update_status mck t) (update_status-IsOver t h m)
    | inl m ↦ waits t h m
  ]

  Course-IsPast : {t u : Stand D} → IsPast t → Course mck t u → IsPast u
  Course-IsPast h here = h
  Course-IsPast h (updated r) = update_status-IsPast _ (Course-IsPast h r)
  Course-IsPast h (interrupted r axis i) = axis_interrupt-IsPast _ axis i (Course-IsPast h r)
  Course-IsPast h (exchanged r c) = Course-IsPast h r

  first_half-IsPast :
      (t : Stand D)
      → t.status ≡ status_homing
      → t.home_a_done ≡ false
      → is_moving t ≡ false
      → IsPast (update_status mck t)
  first_half-IsPast t h d m =
      elim (Bool-cases (t.x.state.ls_home_pressed && t.y.state.ls_home_pressed)) [
        | inl p ↦ subst IsPast (sym (ends_found mck t t h d m p)) (handle_home_b-IsPast t)
        | inr p ↦ inr (inl (ap (λ r. r.status) (ends_lost mck t t h d m p)))
      ]

  Phase-IsPast :
      (s t : Stand D) → Phase mck s t → is_moving t ≡ false → IsPast (update_status mck t)
  Phase-IsPast s t (seeking h d c rx ry) m = first_half-IsPast t h d m
  Phase-IsPast s t (lost x y h sx sy p rx ry) m = update_status-IsPast t (inr (inl h))
  Phase-IsPast s t (leaving x y h d sx sy px py rx ry) m = update_status-IsPast t (inr (inr (h, d)))
  Phase-IsPast s t (homed x y x' y' x0 y0 h sx sy px py sx' sy' zx zy rx ry) m =
      update_status-IsPast t (inl h)

  -- Let both axes stand still at an update of the status somewhere after a HOME, and stand still
  -- again at a later one, with any updates of the status, interrupts of the axes and polls that
  -- change only the communication before and between them. Then the later update leaves the stand
  -- idle or in fault: the homing is over.
  pub homing_ends :
      (s : Stand D) {t u : Stand D}
      → Course mck (handle_home_a mck s) t
      → is_moving t ≡ false
      → Course mck (update_status mck t) u
      → is_moving u ≡ false
      → (((update_status mck u).status ≡ status_idle)
          ⊎ ((update_status mck u).status ≡ status_fault))
  homing_ends s {t = t} {u = u} begun m later m' =
      update_status-IsOver u (Course-IsPast (Phase-IsPast s t (Course-Phase mck s begun) m) later)
        m'
