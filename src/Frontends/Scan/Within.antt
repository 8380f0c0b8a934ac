-- ===== src/Frontends/Scan/Within.antt =====
-- The loop of a scan keeps its points, and begins no more than there are.
use mpmt_test_stand.Prelude.{
  ℕ, zero, suc, ◌+◌, ◌≤◌, ◌≡◌, refl, Bool, true, false, Option, none, some, List, [], ◌∷◌, arith,
  not, ◌||◌, ◌==◌, ltb, if◌then◌else◌, length, add32, get_elem?, ◌⊎◌, inl, inr,
}
use mpmt_test_stand.Serial.Exec.Keeps.{After}
use mpmt_test_stand.Frontends.{Arith}
use mpmt_test_stand.Frontends.Scan.{ScanFrontend, LoopInput}
use mpmt_test_stand.Frontends.Scan.Run.{
  request_move, start_measurement, end_move, measurement_complete, next_move, frontend_loop,
  move_to, move_requested,
}

get_cases :
    {A : Type 0} (xs : List A) (n : ℕ)
    → (get_elem? xs n ≡ none) ⊎ ((x : A) × (get_elem? xs n ≡ some x) × (n + 1 ≤ length xs))
get_cases [] n = inl refl
get_cases (x ∷ xs) zero = inr (x, refl, omega arith)
get_cases (x ∷ xs) (suc n) = elim (get_cases xs n) [
  | inl e ↦ inl e
  | inr (y, e, h) ↦ inr (y, e, omega arith)
]

After-if :
    {S A : Type 0} (P : S → Type 0) (t : Bool) (r r' : Option (A × S))
    → After P r
    → After P r'
    → After P (if t then r else r')
After-if P true r r' h h' = h
After-if P false r r' h h' = h'

-- The points of a scan, and the points begun are among them.
abbrev pub IsWithin : {F T : Type 0} → List (F × F) → ScanFrontend F T → Type 0
IsWithin points st = (st.scan_points ≡ points) × (st.points_begun ≤ length points)

module _ {F G T : Type 0} (fl : Arith F G) (elapsed_ms : T → T → G) where
  move_to-IsWithin :
      (points : List (F × F)) (transition : ℕ) (st : ScanFrontend F T)
      → IsWithin points st
      → After (IsWithin points) (
          move_to fl transition
            (get_elem? st.scan_points st.points_begun)
            (record st { points_begun = st.points_begun + 1 }))
  unfolding move_to request_move move_requested
  move_to-IsWithin points transition st (e, h) = elim (get_cases st.scan_points st.points_begun) [
    | inl none_left ↦ rw none_left tt
    | inr (x, next, inside) ↦ rw next (e, rw e at inside)
  ]

  end_move-IsWithin :
      (points : List (F × F)) (now : T) (st : ScanFrontend F T)
      → IsWithin points st
      → IsWithin points (end_move now st)
  unfolding end_move start_measurement
  end_move-IsWithin points now st h = ground (arith, h)

  next_move-IsWithin :
      (points : List (F × F)) (i : LoopInput T) (st : ScanFrontend F T)
      → IsWithin points st
      → After (IsWithin points) (next_move fl elapsed_ms i st)
  unfolding next_move
  next_move-IsWithin points i st (e, h) =
      let inside : ltb (length st.scan_points) st.points_begun ≡ false = rw e (ground arith) in
      After-if (IsWithin points)
        (measurement_complete fl elapsed_ms i.now_check st || st.points_begun == 0) _ _
        (rw inside (move_to-IsWithin points i.transition st (e, h))) (e, h)

  pub frontend_loop-IsWithin :
      (points : List (F × F)) (i : LoopInput T) (st : ScanFrontend F T)
      → IsWithin points st
      → After (IsWithin points) (frontend_loop fl elapsed_ms i st)
  unfolding frontend_loop
  frontend_loop-IsWithin points i st h =
      let counted : ScanFrontend F T = record st { feloop_counter = add32 st.feloop_counter 1 } in
      After-if (IsWithin points) (not st.called_bor) _ _ h (
        After-if (IsWithin points) (not i.state_running) _ _ h (
          After-if (IsWithin points) (not i.gantry_moving) _ _
            (next_move-IsWithin points i (end_move i.now_start counted)
              (end_move-IsWithin points i.now_start counted h))
            h))
