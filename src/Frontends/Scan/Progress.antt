-- ===== src/Frontends/Scan/Progress.antt =====
-- What the loop of a scan does, against a tour: a list of points of which the next is visited each
-- time one is due.
use mpmt_test_stand.Prelude.{
  ℕ, zero, suc, ◌+◌, ◌≤◌, ◌≡◌, refl, ap, ◌∙◌, Bool, true, false, Option, none, some, List, [], ◌∷◌,
  ◌++◌, arith, not, ◌&&◌, ◌||◌, ◌==◌, ltb, if◌then◌else◌, length, drop, add32, get_elem?, ◌⊎◌,
  Bool-cases, inl, inr,
}
use mpmt_test_stand.Frontends.{Arith, FrontendStatus, success}
use mpmt_test_stand.Frontends.Scan.{
  MidasCall, set_destination, set_start_move, ScanFrontend, LoopInput,
}
use mpmt_test_stand.Frontends.Scan.Run.{
  metres, request_move, start_measurement, end_move, measurement_complete, next_move, frontend_loop,
  move_to, move_requested,
}

-- The points still to visit, and what was asked of MIDAS.
pub record Tour (F : Type 0) : Type 0 where
  pub route : List (F × F)
  pub asked : List (MidasCall F)

unfoldable pub tour : {F T : Type 0} → ScanFrontend F T → Tour F
tour st = record { route = drop st.points_begun st.scan_points; asked = st.calls }

module _ {F G : Type 0} (fl : Arith F G) where
  -- The calls that visit a point, and some points.
  abbrev pub visit_calls : F × F → List (MidasCall F)
  visit_calls (x, y) = set_destination (metres fl x) (metres fl y) ∷ set_start_move ∷ []

  unfoldable pub requests : List (F × F) → List (MidasCall F)
  requests [] = []
  requests (p ∷ ps) = visit_calls p ++ requests ps

  -- No point is left to visit at the end of the route.
  unfoldable pub visit_next : List (F × F) → List (MidasCall F) → Option (Tour F)
  visit_next [] asked = none
  visit_next (p ∷ ps) asked = some (record { route = ps; asked = asked ++ visit_calls p })

  unfoldable pub visit : Tour F → Option (Tour F)
  unfolding visit_next
  visit t = visit_next t.route t.asked

abbrev pub map_tour : {F T : Type 0} → Option (FrontendStatus × ScanFrontend F T) → Option (Tour F)
map_tour none = none
map_tour (some (status, st)) = some (tour st)

drop-get :
    {A : Type 0} (xs : List A) (n : ℕ)
    → ((get_elem? xs n ≡ none) × (drop n xs ≡ []))
      ⊎ ((x : A) × (get_elem? xs n ≡ some x) × (drop n xs ≡ x ∷ drop (suc n) xs))
drop-get [] zero = inl (refl, refl)
drop-get [] (suc n) = inl (refl, refl)
drop-get (x ∷ xs) zero = inr (x, refl, refl)
drop-get (x ∷ xs) (suc n) = drop-get xs n

module _ {F G T : Type 0} (fl : Arith F G) (elapsed_ms : T → T → G) where
  -- The gantry stands in a started run, and the measurement there is complete or none was begun.
  unfoldable pub is_due : LoopInput T → ScanFrontend F T → Bool
  is_due i st =
      st.called_bor
      && i.state_running
      && not i.gantry_moving
      && (measurement_complete fl elapsed_ms i.now_check (end_move i.now_start st)
          || st.points_begun == 0)

  move_to-tour :
      (transition : ℕ) (st : ScanFrontend F T)
      → map_tour (
          move_to fl transition
            (get_elem? st.scan_points st.points_begun)
            (record st { points_begun = st.points_begun + 1 }))
        ≡ visit fl (tour st)
  unfolding move_to request_move move_requested tour visit visit_next
  move_to-tour transition st = elim (drop-get st.scan_points st.points_begun) [
    | inl (e, d) ↦ rw e (rw d refl)
    | inr (x, e, d) ↦
        let next : st.points_begun + 1 ≡ suc st.points_begun = omega arith in
        rw e (rw d (rw next refl))
  ]

  end_move_same :
      (now : T) (st : ScanFrontend F T)
      → (tour (end_move now st) ≡ tour st)
        × ((end_move now st).points_begun ≡ st.points_begun)
        × ((end_move now st).scan_points ≡ st.scan_points)
  unfolding end_move start_measurement tour
  end_move_same now st = ground arith

  next_move-tour :
      (i : LoopInput T) (st : ScanFrontend F T)
      → st.points_begun ≤ length st.scan_points
      → map_tour (next_move fl elapsed_ms i st) ≡ (
          if measurement_complete fl elapsed_ms i.now_check st || st.points_begun == 0
          then visit fl (tour st)
          else some (tour st))
  unfolding next_move
  next_move-tour i st h =
      let inside : ltb (length st.scan_points) st.points_begun ≡ false = ground arith in
      elim (Bool-cases
        (measurement_complete fl elapsed_ms i.now_check st || st.points_begun == 0)) [
          | inl due ↦ rw due (rw inside (move_to-tour i.transition st))
          | inr wait ↦ rw wait refl
        ]

  -- A call behind the tests for a called begin_of_run, a running run and a standing gantry.
  guarded-tour :
      (called running moving due : Bool) (st st' : ScanFrontend F T)
      (r : Option (FrontendStatus × ScanFrontend F T)) (t : Tour F)
      → tour st ≡ t
      → tour st' ≡ t
      → map_tour r ≡ (if due then visit fl t else some t)
      → map_tour (
          if not called
          then some (success, st)
          else if not running
          then some (success, st)
          else if not moving
          then r
          else some (success, st'))
        ≡ (if called && running && not moving && due then visit fl t else some t)
  guarded-tour false running moving due st st' r t e e' h = ap some e
  guarded-tour true false moving due st st' r t e e' h = ap some e
  guarded-tour true true true due st st' r t e e' h = ap some e'
  guarded-tour true true false due st st' r t e e' h = h

  counted_same :
      (now now' : T) (st : ScanFrontend F T) (n : ℕ)
      → measurement_complete fl elapsed_ms now (end_move now' (record st { feloop_counter = n }))
        ≡ measurement_complete fl elapsed_ms now (end_move now' st)
  unfolding measurement_complete end_move start_measurement
  counted_same now now' st n = elim (Bool-cases st.gantry_was_moving) [
    | inl e ↦ rw e refl
    | inr e ↦ rw e refl
  ]

  -- What follows from a complete measurement, the points begun and the tour.
  abbrev answer : Bool → ℕ → Tour F → Option (Tour F)
  answer complete begun t = if complete || begun == 0 then visit fl t else some t

  answer_same :
      {m m' : Bool} {n n' : ℕ} {t t' : Tour F}
      → m ≡ m'
      → n ≡ n'
      → t ≡ t'
      → answer m n t ≡ answer m' n' t'
  answer_same em en et = rw em (rw en (rw et refl))

  flags_tour :
      (st : ScanFrontend F T) (n : ℕ) (moving : Bool)
      → tour (record st { feloop_counter = n; gantry_was_moving = moving }) ≡ tour st
  unfolding tour
  flags_tour st n moving = refl

  -- Let at most all points be begun. A call of frontend_loop implements a tour of the points: when
  -- a point is due, that is when the run is on, the gantry stands and its measurement is complete
  -- or no point is begun, the call asks for a move to the next point, and is undefined if there is
  -- none; otherwise it asks for nothing.
  pub frontend_loop-tour :
      (i : LoopInput T) (st : ScanFrontend F T)
      → st.points_begun ≤ length st.scan_points
      → map_tour (frontend_loop fl elapsed_ms i st)
        ≡ (if is_due i st then visit fl (tour st) else some (tour st))
  unfolding frontend_loop is_due
  frontend_loop-tour i st h =
      let counted : ScanFrontend F T = record st { feloop_counter = add32 st.feloop_counter 1 } in
      let (same, begun, points) = end_move_same i.now_start counted in
      let h' : (end_move i.now_start counted).points_begun
          ≤ length (end_move i.now_start counted).scan_points =
        rw begun (rw points h) in
      let moved = next_move-tour i (end_move i.now_start counted) h' in
      guarded-tour st.called_bor i.state_running i.gantry_moving _ counted
        (record counted { gantry_was_moving = true }) _ (tour st)
        (flags_tour st _ st.gantry_was_moving) (flags_tour st _ true)
        (moved
          ∙ answer_same (counted_same i.now_check i.now_start st (add32 st.feloop_counter 1)) begun
              (same ∙ flags_tour st _ st.gantry_was_moving))
