-- ===== src/Frontends/Scan.antt =====
-- feScan/feScan.cxx: the front end that moves the gantry over a grid of points and waits at each for a
-- measurement. The database and the clock are arguments of the callbacks that ask them; what the
-- callbacks write to the database and ask of MIDAS is a log, in the order of the calls.
pub mod Run
pub mod Grid
pub mod Progress
pub mod Within
pub mod Visits
pub mod Idle
use mpmt_test_stand.Prelude.{
  ℕ, zero, suc, ◌+◌, Bool, true, false, Option, none, some, List, [], ◌∷◌, ◌++◌, ◌==◌, ltb, not,
  ◌&&◌, ◌||◌, if◌then◌else◌, length, add32, sub32, get_elem?,
}
use mpmt_test_stand.Frontends.{
  Arith, FrontendStatus, success, fe_err_odb, cm_db_error, transition_status,
}

pub data ScanStatus : Type 0 where
  scan_status_stopped scan_status_started scan_status_moving scan_status_measuring : ScanStatus

pub data MidasCall (F : Type 0) : Type 0 where
  set_destination : F → F → MidasCall F
  set_start_move : MidasCall F
  stop_run : MidasCall F

-- The globals. `points_begun` is gbl_current_point + 1, so that it is 0 before the first point.
pub record ScanFrontend (F T : Type 0) : Type 0 where
  pub called_bor : Bool
  pub gantry_was_moving : Bool
  pub points_begun : ℕ
  pub new_scanning_point : Bool
  pub new_move_started : Bool
  pub scan_points : List (F × F)
  pub scan_time : F
  pub time_start_measurement : T
  pub scan_status : ScanStatus
  pub feloop_counter : ℕ
  pub calls : List (MidasCall F)

-- The settings of begin_of_run, as db_get_value answers: `none` where its status is not DB_SUCCESS.
pub record ScanOdb (F : Type 0) : Type 0 where
  pub odb_step_size : Option F
  pub odb_start_position : Option (F × F)
  pub odb_distance : Option (F × F)
  pub odb_scan_time : Option F

pub record ScanSettings (F : Type 0) : Type 0 where
  pub step_size : F
  pub start_position : F × F
  pub distance : F × F

-- The local variables of the loop that makes the points.
pub record ScanCursor (F : Type 0) : Type 0 where
  pub moving_forward : Bool
  pub current_x_pos : F
  pub current_y_pos : F

-- What a call of frontend_loop finds: Moving in the database, the run state, the clock at the start
-- of a measurement and at the check for its end, and the status of a transition.
pub record LoopInput (T : Type 0) : Type 0 where
  pub gantry_moving : Bool
  pub state_running : Bool
  pub now_start : T
  pub now_check : T
  pub transition : ℕ

-- The banks of an event, with the point as the integer that is converted.
pub record ScanEvent (F : Type 0) : Type 0 where
  pub scan_bank : ScanStatus × ℕ × ℕ
  pub cyc0_point : ℕ
  pub cyc0_position : F × F
  pub eom_bank : Option ℕ
  pub bonm_bank : Option ℕ

abbrev pub max_scan_points : ℕ
max_scan_points = 100000

module _ {F G : Type 0} (fl : Arith F G) where
  -- Decides what the next point will be.
  unfoldable pub next_point : ScanSettings F → ScanCursor F → ScanCursor F
  next_point s c =
      if c.moving_forward
      then (let next_x_pos = fl.add c.current_x_pos s.step_size in
          if fl.lt s.distance.0 (fl.sub next_x_pos s.start_position.0)
          then record c {
            moving_forward = false;
            current_y_pos = fl.add c.current_y_pos s.step_size;
          }
          else record c { current_x_pos = next_x_pos })
      else (let next_x_pos = fl.sub c.current_x_pos s.step_size in
          if fl.lt (fl.sub next_x_pos s.start_position.0) (fl.of_int 0)
          then record c {
            moving_forward = true;
            current_y_pos = fl.add c.current_y_pos s.step_size;
          }
          else record c { current_x_pos = next_x_pos })

  -- The `while` loop, with room for so many more points.
  unfoldable pub points_from : ScanSettings F → ℕ → ScanCursor F → List (F × F)
  unfolding next_point
  points_from s zero c = []
  points_from s (suc room) c =
      let rest = points_from s room (next_point s c) in
      if fl.lt c.current_y_pos (fl.add s.start_position.1 s.distance.1)
      then (c.current_x_pos, c.current_y_pos) ∷ rest
      else []

  unfoldable pub rectangular_scan : ScanSettings F → List (F × F)
  rectangular_scan s = points_from s max_scan_points (record {
    moving_forward = true;
    current_x_pos = s.start_position.0;
    current_y_pos = s.start_position.1;
  })
