-- ===== src/Stand/Safety.antt =====
-- The status that the firmware reports against what its axes do.
use mpmt_test_stand.Prelude.{
  ℕ, ◌≡◌, ◌≢◌, refl, Bool, true, false, arith, ◌&&◌, Bool-cases, inl, inr,
}
use mpmt_test_stand.Shared.{
  Status, status_idle, status_homing, status_moving, status_fault, axis_dir_positive,
  axis_dir_negative, AxisId, axis_x, axis_y, AxisResult, axis_ok, MoveMsgData,
}
use mpmt_test_stand.Gantry.State.{Axis}
use mpmt_test_stand.Gantry.Axis.{start_axis, stop_axis, reset_axis}
use mpmt_test_stand.Gantry.Axis.Start.{refused_unchanged}
use mpmt_test_stand.Gantry.Isr.{Interrupt}
use mpmt_test_stand.Gantry.Isr.Timers.{IsSynced, start_axis-IsSynced, stop_axis-IsSynced}
use mpmt_test_stand.Stand.{
  Stand, with_axis, homing_motion, handle_home_a, handle_home_b, handle_stop, update_status,
  update_from, update_homing, with_status, is_moving, after_move, move_motion, begin_move,
  axis_interrupt,
}
use mpmt_test_stand.Stand.Covered.{
  is_busy, IsCovered, busy-IsCovered, still-IsCovered, interrupt-IsCovered, covered_lem, rest_axis,
  unchanged-IsCovered,
}

pub record IsSafe {D : Type 0} (s : Stand D) : Type 0 where
  pub safe_x : IsCovered s.status s.x
  pub safe_y : IsCovered s.status s.y

module _ {D : Type 0} where
  pub axis_interrupt-IsSafe :
      (mck : ℕ) (id : AxisId) (i : Interrupt) (s : Stand D)
      → IsSafe s
      → IsSafe (axis_interrupt mck id i s)
  unfolding axis_interrupt
  axis_interrupt-IsSafe mck axis_x i s h = record {
    safe_x = interrupt-IsCovered mck i s.status s.x h.safe_x;
    safe_y = h.safe_y;
  }
  axis_interrupt-IsSafe mck axis_y i s h = record {
    safe_x = h.safe_x;
    safe_y = interrupt-IsCovered mck i s.status s.y h.safe_y;
  }

  pub handle_stop-IsSafe : (s : Stand D) → IsSafe s → IsSafe (handle_stop s)
  unfolding handle_stop stop_axis
  handle_stop-IsSafe s h = record {
    safe_x =
        still-IsCovered status_idle (stop_axis s.x) refl
          (stop_axis-IsSynced s.x h.safe_x.synced.apart);
    safe_y =
        still-IsCovered status_idle (stop_axis s.y) refl
          (stop_axis-IsSynced s.y h.safe_y.synced.apart);
  }

  pub handle_home_a-IsSafe : (mck : ℕ) (s : Stand D) → IsSafe s → IsSafe (handle_home_a mck s)
  unfolding handle_home_a
  handle_home_a-IsSafe mck s h =
      let motion = homing_motion axis_dir_negative s in
      record {
        safe_x =
            busy-IsCovered status_homing _ refl
              (start_axis-IsSynced mck s.x motion h.safe_x.synced);
        safe_y =
            busy-IsCovered status_homing _ refl
              (start_axis-IsSynced mck s.y motion h.safe_y.synced);
      }

  pub handle_home_b-IsSafe : (mck : ℕ) (s : Stand D) → IsSafe s → IsSafe (handle_home_b mck s)
  unfolding handle_home_b
  handle_home_b-IsSafe mck s h =
      let motion = homing_motion axis_dir_positive s in
      record {
        safe_x =
            busy-IsCovered status_homing _ refl
              (start_axis-IsSynced mck s.x motion h.safe_x.synced);
        safe_y =
            busy-IsCovered status_homing _ refl
              (start_axis-IsSynced mck s.y motion h.safe_y.synced);
      }

  with_status-IsSafe :
      (status : Status) (s : Stand D)
      → (is_moving s ≡ true → is_busy status ≡ true)
      → IsSafe s
      → IsSafe (with_status status s)
  with_status-IsSafe status s b h = record {
    safe_x = covered_lem s.x status (is_moving s) (λ m. cc) b h.safe_x.synced;
    safe_y = covered_lem s.y status (is_moving s) (λ m. ground arith) b h.safe_y.synced;
  }

  after_move-busy : (s : Stand D) → is_moving s ≡ true → is_busy (after_move s) ≡ true
  after_move-busy s m = rw m

  home_part_a-IsSafe : (mck : ℕ) (s : Stand D) → IsSafe s → IsSafe (update_homing mck false s)
  unfolding update_homing
  home_part_a-IsSafe mck s h = elim (Bool-cases (is_moving s)) [
    | inl m ↦ rw m (with_status-IsSafe status_homing s (λ _. refl) h)
    | inr m ↦ rw m (elim (Bool-cases (s.x.state.ls_home_pressed && s.y.state.ls_home_pressed)) [
      | inl p ↦ rw p (handle_home_b-IsSafe mck s h)
      | inr p ↦ rw p (with_status-IsSafe status_fault s (λ b. cc) h)
    ])
  ]

  abbrev homed : Stand D → Stand D
  homed s = record s {
    x = reset_axis s.x;
    y = reset_axis s.y;
    status = status_idle;
    home_a_done = false;
  }

  homed-IsSafe : (s : Stand D) → IsSafe s → IsSafe (homed s)
  homed-IsSafe s h = record {
    safe_x = rest_axis s.x h.safe_x.synced;
    safe_y = rest_axis s.y h.safe_y.synced;
  }

  home_part_b-IsSafe : (mck : ℕ) (s : Stand D) → IsSafe s → IsSafe (update_homing mck true s)
  unfolding update_homing
  home_part_b-IsSafe mck s h = elim (Bool-cases (is_moving s)) [
    | inl m ↦ rw m (with_status-IsSafe status_homing s (λ _. refl) h)
    | inr m ↦ rw m (homed-IsSafe s h)
  ]

  update_homing-IsSafe :
      (mck : ℕ) (done : Bool) (s : Stand D) → IsSafe s → IsSafe (update_homing mck done s)
  update_homing-IsSafe mck false s h = home_part_a-IsSafe mck s h
  update_homing-IsSafe mck true s h = home_part_b-IsSafe mck s h

  update_from-IsSafe :
      (mck : ℕ) (status : Status) (s : Stand D) → IsSafe s → IsSafe (update_from mck status s)
  unfolding update_from
  update_from-IsSafe mck status_idle s h = h
  update_from-IsSafe mck status_moving s h =
      with_status-IsSafe (after_move s) s (after_move-busy s) h
  update_from-IsSafe mck status_homing s h = update_homing-IsSafe mck s.home_a_done s h
  update_from-IsSafe mck status_fault s h = h

  pub update_status-IsSafe : (mck : ℕ) (s : Stand D) → IsSafe s → IsSafe (update_status mck s)
  unfolding update_status
  update_status-IsSafe mck s h = update_from-IsSafe mck s.status s h

  begin_x :
      (res : AxisResult) (a : Axis) (s : Stand D)
      → (res ≢ axis_ok → a ≡ s.x)
      → IsSynced a
      → IsSafe s
      → IsSafe (elim res [
        | axis_ok ↦ with_status status_moving (with_axis axis_x a s)
        | _ ↦ with_axis axis_x a s
      ])
  begin_x axis_ok a s u w h = record {
    safe_x = busy-IsCovered status_moving a refl w;
    safe_y = busy-IsCovered status_moving s.y refl h.safe_y.synced;
  }
  begin_x _ a s u w h = record {
    safe_x = unchanged-IsCovered s.status a s.x (u (λ e. cc)) h.safe_x;
    safe_y = h.safe_y;
  }

  begin_y :
      (res : AxisResult) (a : Axis) (s : Stand D)
      → (res ≢ axis_ok → a ≡ s.y)
      → IsSynced a
      → IsSafe s
      → IsSafe (elim res [
        | axis_ok ↦ with_status status_moving (with_axis axis_y a s)
        | _ ↦ with_axis axis_y a s
      ])
  begin_y axis_ok a s u w h = record {
    safe_x = busy-IsCovered status_moving s.x refl h.safe_x.synced;
    safe_y = busy-IsCovered status_moving a refl w;
  }
  begin_y _ a s u w h = record {
    safe_x = h.safe_x;
    safe_y = unchanged-IsCovered s.status a s.y (u (λ e. cc)) h.safe_y;
  }

  pub begin_move-IsSafe :
      (mck : ℕ) (move : MoveMsgData) (id : AxisId) (s : Stand D)
      → IsSafe s
      → IsSafe (begin_move mck move id s).1
  begin_move-IsSafe mck move axis_x s h =
      begin_x (start_axis mck s.x (move_motion move s)).0 _ s
        (refused_unchanged mck s.x (move_motion move s))
        (start_axis-IsSynced mck s.x (move_motion move s) h.safe_x.synced) h
  begin_move-IsSafe mck move axis_y s h =
      begin_y (start_axis mck s.y (move_motion move s)).0 _ s
        (refused_unchanged mck s.y (move_motion move s))
        (start_axis-IsSynced mck s.y (move_motion move s) h.safe_y.synced) h
