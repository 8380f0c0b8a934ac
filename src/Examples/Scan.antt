-- ===== src/Examples/Scan.antt =====
-- A scan on a grid of whole millimetres.
use mpmt_test_stand.Prelude.{
  ℕ, ◌+◌, ◌*◌, ◌-◌, ◌≤◌, ◌≡◌, refl, true, false, some, [], ◌∷◌, ◌++◌, arith, not, int32_leb, add32,
  sub32, leb, length, take, if◌then◌else◌,
}
use mpmt_test_stand.Frontends.{Arith}
use mpmt_test_stand.Frontends.Scan.{
  set_destination, set_start_move, ScanFrontend, ScanSettings, LoopInput, scan_status_stopped,
  scan_status_measuring, rectangular_scan, next_point, points_from,
}
use mpmt_test_stand.Frontends.Scan.Run.{
  begin_of_run, begin_settings, begin_timed, scan_set_up, frontend_loop, end_move, next_move,
  measurement_complete, start_measurement, move_to, move_requested, request_move,
}
use mpmt_test_stand.Frontends.Scan.Grid.{IsGrid, serpentine, rectangular_scan-serpentine}
use mpmt_test_stand.Frontends.Scan.Progress.{
  tour, visit, map_tour, is_due, frontend_loop-tour, requests,
}
use mpmt_test_stand.Frontends.Scan.Visits.{loops, settings_read, run-visits}

-- Whole numbers, as bit patterns of int32_t, in place of floats.
abbrev pub whole : Arith ℕ ℕ
whole = record {
  add = add32;
  sub = sub32;
  mul = λ a b. a;
  div = λ a b. a;
  lt = λ a b. not (int32_leb b a);
  of_int = λ n. n;
  of_uint = λ n. n;
  widen = λ a. a;
  narrow = λ a. a;
  decimal = λ digits places. digits;
  m_pi = 3;
  mul_double = λ a b. a;
  div_double = λ a b. a;
  le_double = leb;
  double_of_int = λ n. n;
  round_int32 = λ a. a;
  round_uint32 = λ a. a;
}

-- 3 columns and 2 rows from (50, 50), 10 apart.
abbrev small : ScanSettings ℕ
small = record { step_size = 10; start_position = (50, 50); distance = (20, 20) }

abbrev column : ℕ → ℕ
column j = 50 + 10 * j

small-IsGrid : IsGrid whole small column column 2 2
small-IsGrid = record {
  first_column = refl;
  first_row = refl;
  right = λ j h. omega arith;
  left = λ j h. omega arith;
  up = λ j h. omega arith;
  within = λ j h. ground arith;
  too_far = refl;
  not_before = λ j h. ground arith;
  before = refl;
  below = λ j h. ground arith;
  top = refl;
}

rectangular_scan-serpentine_example :
    rectangular_scan whole small ≡ serpentine column column true 2 0 2
rectangular_scan-serpentine_example =
    rectangular_scan-serpentine whole small column column 2 2 small-IsGrid (omega arith)

abbrev elapsed : ℕ → ℕ → ℕ
elapsed a b = a - b

abbrev stopped : ScanFrontend ℕ ℕ
stopped = record {
  called_bor = false;
  gantry_was_moving = false;
  points_begun = 0;
  new_scanning_point = false;
  new_move_started = false;
  scan_points = [];
  scan_time = 0;
  time_start_measurement = 0;
  scan_status = scan_status_stopped;
  feloop_counter = 0;
  calls = [];
}

-- The gantry stands, at a time in ms.
abbrev standing : ℕ → LoopInput ℕ
standing now = record {
  gantry_moving = false;
  state_running = true;
  now_start = now;
  now_check = now;
  transition = 1;
}

abbrev dot : ScanSettings ℕ
dot = record { step_size = 10; start_position = (50, 50); distance = (5, 5) }

-- A scan that has one point.
abbrev one_point : ScanFrontend ℕ ℕ
unfolding begin_of_run begin_settings begin_timed scan_set_up rectangular_scan points_from
    next_point
one_point = (begin_of_run whole (settings_read dot 5000) stopped).1

-- It after its move, while it measures.
abbrev measuring : ScanFrontend ℕ ℕ
measuring = record {
  called_bor = true;
  gantry_was_moving = false;
  points_begun = 1;
  new_scanning_point = true;
  new_move_started = true;
  scan_points = (50, 50) ∷ [];
  scan_time = 5000;
  time_start_measurement = 200;
  scan_status = scan_status_measuring;
  feloop_counter = 2;
  calls = set_destination 50 50 ∷ set_start_move ∷ [];
}

dot_run :
    loops whole elapsed
      (standing 100 ∷ standing 200 ∷ [])
      (begin_of_run whole (settings_read dot 5000) stopped).1
    ≡ some measuring
unfolding begin_of_run begin_settings begin_timed scan_set_up rectangular_scan points_from
    next_point loops frontend_loop end_move next_move measurement_complete start_measurement move_to
    move_requested request_move
dot_run = refl

measuring_due : is_due whole elapsed (standing 7000) measuring ≡ true
unfolding is_due end_move measurement_complete
measuring_due = refl

run-visits_example :
    let points = rectangular_scan whole dot in
    (measuring.scan_points ≡ points)
    × (measuring.points_begun ≤ length points)
    × (measuring.calls ≡ stopped.calls ++ requests whole (take measuring.points_begun points))
run-visits_example =
    run-visits whole elapsed dot 5000 (standing 100 ∷ standing 200 ∷ []) stopped measuring dot_run

frontend_loop-tour_example : map_tour (frontend_loop whole elapsed (standing 7000) measuring) ≡ (
    if is_due whole elapsed (standing 7000) measuring
    then visit whole (tour measuring)
    else some (tour measuring))
frontend_loop-tour_example =
    frontend_loop-tour whole elapsed (standing 7000) measuring (omega arith)
