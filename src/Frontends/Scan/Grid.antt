-- ===== src/Frontends/Scan/Grid.antt =====
-- The points that begin_of_run makes, against a reference: rows from bottom to top, the even ones from
-- left to right and the odd ones from right to left.
use mpmt_test_stand.Prelude.{
  ℕ, zero, suc, ◌+◌, ◌*◌, ◌<◌, ◌≤◌, ◌≡◌, refl, ap, ◌∙◌, ◌-◌, Bool, true, false, List, [], ◌∷◌, ◌++◌,
  map, arith, not,
}
use mpmt_test_stand.Frontends.{Arith}
use mpmt_test_stand.Frontends.Scan.{
  ScanSettings, ScanCursor, next_point, points_from, rectangular_scan, max_scan_points,
}

-- n numbers upwards from k, and n + 1 numbers down to 0
unfoldable pub upwards : ℕ → ℕ → List ℕ
upwards k zero = []
upwards k (suc n) = k ∷ upwards (suc k) n

unfoldable pub downwards : ℕ → List ℕ
downwards zero = 0 ∷ []
downwards (suc n) = suc n ∷ downwards n

module _ {F : Type 0} (px py : ℕ → F) where
  abbrev point : ℕ → ℕ → F × F
  point row column = (px column, py row)

  -- A row of cols + 1 points.
  unfoldable pub row_points : Bool → ℕ → ℕ → List (F × F)
  unfolding upwards downwards
  row_points true cols row = map (point row) (upwards 0 (suc cols))
  row_points false cols row = map (point row) (downwards cols)

  -- So many rows from a given one on.
  unfoldable pub serpentine : Bool → ℕ → ℕ → ℕ → List (F × F)
  unfolding row_points
  serpentine forward cols row zero = []
  serpentine forward cols row (suc rows) =
      row_points forward cols row ++ serpentine (not forward) cols (suc row) rows

-- The settings span a grid of the columns px and the rows py, and float arithmetic is exact on it.
pub record IsGrid {F G : Type 0} (fl : Arith F G) (s : ScanSettings F) (px py : ℕ → F)
    (cols rows : ℕ) : Type 0 where
  pub first_column : px 0 ≡ s.start_position.0
  pub first_row : py 0 ≡ s.start_position.1
  pub right : (j : ℕ) → j < cols → fl.add (px j) s.step_size ≡ px (suc j)
  pub left : (j : ℕ) → j < cols → fl.sub (px (suc j)) s.step_size ≡ px j
  pub up : (i : ℕ) → i < rows → fl.add (py i) s.step_size ≡ py (suc i)
  pub within :
      (j : ℕ) → j < cols → fl.lt s.distance.0 (fl.sub (px (suc j)) s.start_position.0) ≡ false
  pub too_far : fl.lt s.distance.0 (fl.sub (fl.add (px cols) s.step_size) s.start_position.0) ≡ true
  pub not_before :
      (j : ℕ) → j < cols → fl.lt (fl.sub (px j) s.start_position.0) (fl.of_int 0) ≡ false
  pub before : fl.lt (fl.sub (fl.sub (px 0) s.step_size) s.start_position.0) (fl.of_int 0) ≡ true
  pub below : (i : ℕ) → i < rows → fl.lt (py i) (fl.add s.start_position.1 s.distance.1) ≡ true
  pub top : fl.lt (py rows) (fl.add s.start_position.1 s.distance.1) ≡ false

module _ {F G : Type 0} (fl : Arith F G) (s : ScanSettings F) (px py : ℕ → F) (cols rows : ℕ)
    (g : IsGrid fl s px py cols rows) where
  abbrev cursor_at : Bool → F → F → ScanCursor F
  cursor_at forward x y = record { moving_forward = forward; current_x_pos = x; current_y_pos = y }

  abbrev cursor : Bool → ℕ → ℕ → ScanCursor F
  cursor forward column row = cursor_at forward (px column) (py row)

  go_right : (j i : ℕ) → j < cols → next_point fl s (cursor true j i) ≡ cursor true (suc j) i
  unfolding next_point
  go_right j i h = rw (g.right j h) (rw (g.within j h) refl)

  turn_left : (i : ℕ) → i < rows → next_point fl s (cursor true cols i) ≡ cursor false cols (suc i)
  unfolding next_point
  turn_left i h = rw g.too_far (rw (g.up i h) refl)

  go_left : (j i : ℕ) → j < cols → next_point fl s (cursor false (suc j) i) ≡ cursor false j i
  unfolding next_point
  go_left j i h = rw (g.left j h) (rw (g.not_before j h) refl)

  turn_right : (i : ℕ) → i < rows → next_point fl s (cursor false 0 i) ≡ cursor true 0 (suc i)
  unfolding next_point
  turn_right i h = rw g.before (rw (g.up i h) refl)

  -- One more point below the top.
  add_point :
      (forward : Bool) (j i room : ℕ) (next : ScanCursor F)
      → i < rows
      → next_point fl s (cursor forward j i) ≡ next
      → points_from fl s (suc room) (cursor forward j i) ≡ (px j, py i) ∷ points_from fl s room next
  unfolding points_from
  add_point forward j i room next h e = rw (g.below i h) (rw e refl)

  rightwards :
      (n j i room : ℕ)
      → j + n ≡ cols
      → i < rows
      → points_from fl s (suc n + room) (cursor true j i)
        ≡ map (point px py i) (upwards j (suc n))
          ++ points_from fl s room (cursor false cols (suc i))
  unfolding upwards
  rightwards zero j i room e h =
      let last : j ≡ cols = omega arith in
      let more : 1 + room ≡ suc room = omega arith in
      rw more (rw last (add_point true cols i room (cursor false cols (suc i)) h (turn_left i h)))
  rightwards (suc n) j i room e h =
      let more : suc (suc n) + room ≡ suc (suc n + room) = omega arith in
      rw more (
        rw
          (add_point true j i (suc n + room) (cursor true (suc j) i) h (go_right j i (omega arith)))
          (rw (rightwards n (suc j) i room (omega arith) h) refl))

  leftwards :
      (j i room : ℕ)
      → j ≤ cols
      → i < rows
      → points_from fl s (suc j + room) (cursor false j i)
        ≡ map (point px py i) (downwards j) ++ points_from fl s room (cursor true 0 (suc i))
  unfolding downwards
  leftwards zero i room e h =
      let more : 1 + room ≡ suc room = omega arith in
      rw more (add_point false 0 i room (cursor true 0 (suc i)) h (turn_right i h))
  leftwards (suc j) i room e h =
      let more : suc (suc j) + room ≡ suc (suc j + room) = omega arith in
      rw more (
        rw
          (add_point false (suc j) i (suc j + room) (cursor false j i) h
            (go_left j i (omega arith)))
          (rw (leftwards j i room (omega arith) h) refl))

  -- Where a row starts.
  abbrev entry : Bool → ℕ → ScanCursor F
  entry true row = cursor true 0 row
  entry false row = cursor false cols row

  row_lem :
      (forward : Bool) (i room : ℕ)
      → i < rows
      → points_from fl s (suc cols + room) (entry forward i)
        ≡ row_points px py forward cols i ++ points_from fl s room (entry (not forward) (suc i))
  unfolding row_points
  row_lem true i room h = rightwards cols 0 i room (omega arith) h
  row_lem false i room h = leftwards cols i room (omega arith) h

  stop_at_top : (forward : Bool) (room : ℕ) → points_from fl s room (entry forward rows) ≡ []
  unfolding points_from
  stop_at_top forward zero = refl
  stop_at_top true (suc room) = rw g.top refl
  stop_at_top false (suc room) = rw g.top refl

  all_rows :
      (n i room : ℕ) (forward : Bool)
      → i + n ≡ rows
      → points_from fl s (n * suc cols + room) (entry forward i) ≡ serpentine px py forward cols i n
  unfolding serpentine
  all_rows zero i room forward e =
      let last : i ≡ rows = omega arith in rw last (stop_at_top forward (0 * suc cols + room))
  all_rows (suc n) i room forward e =
      let more : suc n * suc cols + room ≡ suc cols + (n * suc cols + room) = omega arith in
      rw more (
        rw (row_lem forward i (n * suc cols + room) (omega arith))
          (rw (all_rows n (suc i) room (not forward) (omega arith)) refl))

  start_entry : cursor_at true s.start_position.0 s.start_position.1 ≡ entry true 0
  start_entry = rw g.first_column (rw g.first_row refl)

  -- Let the settings span a grid of at most 100000 points on which float arithmetic is exact. The
  -- points of the scan are those of the grid, row after row from the bottom, the even rows from
  -- left to right and the odd ones from right to left.
  pub rectangular_scan-serpentine :
      rows * suc cols ≤ max_scan_points → rectangular_scan fl s ≡ serpentine px py true cols 0 rows
  unfolding rectangular_scan
  rectangular_scan-serpentine fits =
      let room = max_scan_points - rows * suc cols in
      let all : max_scan_points ≡ rows * suc cols + room = omega (arith, fits) in
      ap (points_from fl s max_scan_points) start_entry
      ∙ ap (λ r. points_from fl s r (entry true 0)) all
      ∙ all_rows rows 0 room true (omega arith)
