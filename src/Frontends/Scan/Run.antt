-- ===== src/Frontends/Scan/Run.antt =====
-- The callbacks of feScan.cxx: frontend_init, begin_of_run, frontend_loop, end_of_run, read_scan_state.
use mpmt_test_stand.Prelude.{
  ℕ, ◌+◌, Bool, true, false, Option, none, some, [], ◌∷◌, ◌++◌, ◌==◌, ltb, not, ◌||◌, if◌then◌else◌,
  length, add32, sub32, get_elem?,
}
use mpmt_test_stand.Frontends.{
  Arith, FrontendStatus, success, fe_err_odb, cm_db_error, transition_status,
}
use mpmt_test_stand.Frontends.Scan.{
  scan_status_stopped, scan_status_started, scan_status_moving, scan_status_measuring,
  set_destination, set_start_move, stop_run, ScanFrontend, ScanOdb, ScanSettings, LoopInput,
  ScanEvent, rectangular_scan,
}

module _ {F T : Type 0} where
  unfoldable pub frontend_init : Bool → ScanFrontend F T → FrontendStatus × ScanFrontend F T
  frontend_init connected st =
      if connected
      then (success, record st { scan_status = scan_status_stopped })
      else (fe_err_odb, st)

  -- The first assignments of begin_of_run.
  abbrev pub run_started : ScanFrontend F T → ScanFrontend F T
  run_started st = record st {
    scan_status = scan_status_started;
    new_scanning_point = false;
    new_move_started = false;
  }

  unfoldable pub end_of_run : ScanFrontend F T → FrontendStatus × ScanFrontend F T
  end_of_run st = (
    success,
    record st { called_bor = false; gantry_was_moving = false; scan_status = scan_status_stopped },
  )

  unfoldable pub start_measurement : T → ScanFrontend F T → ScanFrontend F T
  start_measurement now st = record st { time_start_measurement = now }

  -- The part of frontend_loop that ends a move.
  unfoldable pub end_move : T → ScanFrontend F T → ScanFrontend F T
  unfolding start_measurement
  end_move now st =
      if st.gantry_was_moving
      then record (start_measurement now st) {
        scan_status = scan_status_measuring;
        new_scanning_point = true;
        gantry_was_moving = false;
      }
      else st

  unfoldable pub move_requested :
      ℕ → FrontendStatus → ScanFrontend F T → FrontendStatus × ScanFrontend F T
  move_requested transition success st = (
    success,
    record st {
      scan_status = scan_status_moving;
      gantry_was_moving = true;
      new_move_started = true;
    },
  )
  move_requested transition failed st =
      (transition_status transition, record st { calls = st.calls ++ stop_run ∷ [] })

  -- read_scan_state, with the position that the database has
  unfoldable pub read_scan_state : F × F → ScanFrontend F T → ScanEvent F × ScanFrontend F T
  read_scan_state position st =
      let point = sub32 st.points_begun 1 in
      let event : ScanEvent F = record {
        scan_bank = (st.scan_status, st.points_begun, length st.scan_points);
        cyc0_point = point;
        cyc0_position = position;
        eom_bank = if st.new_scanning_point then some point else none;
        bonm_bank = if st.new_move_started then some point else none;
      } in
      (event, record st { new_scanning_point = false; new_move_started = false })

module _ {F G : Type 0} (fl : Arith F G) where
  -- A coordinate in mm as the metres of the database.
  abbrev pub metres : F → F
  metres mm = fl.narrow (fl.div_double (fl.widen mm) (fl.decimal 10000 1))

module _ {F G T : Type 0} (fl : Arith F G) where
  abbrev pub default_scan_time : ScanFrontend F T → ScanFrontend F T
  default_scan_time st = record st { scan_time = fl.of_int 5000 }

  -- begin_of_run once all settings are read.
  unfoldable pub scan_set_up : ScanSettings F → F → ScanFrontend F T → ScanFrontend F T
  scan_set_up s scan_time st = record st {
    scan_time = scan_time;
    scan_points = rectangular_scan fl s;
    points_begun = 0;
    gantry_was_moving = false;
    called_bor = true;
  }

  unfoldable pub begin_timed :
      ScanSettings F → Option F → ScanFrontend F T → FrontendStatus × ScanFrontend F T
  unfolding scan_set_up
  begin_timed s none st = (cm_db_error, default_scan_time st)
  begin_timed s (some scan_time) st = (success, scan_set_up s scan_time st)

  unfoldable pub begin_settings :
      Option F
      → Option (F × F)
      → Option (F × F)
      → Option F
      → ScanFrontend F T
      → FrontendStatus × ScanFrontend F T
  unfolding begin_timed
  begin_settings (some step_size) (some start_position) (some distance) scan_time st =
      begin_timed
        (record { step_size = step_size; start_position = start_position; distance = distance })
        scan_time st
  begin_settings _ _ _ scan_time st = (cm_db_error, st)

  unfoldable pub begin_of_run : ScanOdb F → ScanFrontend F T → FrontendStatus × ScanFrontend F T
  unfolding begin_settings
  begin_of_run odb st =
      begin_settings odb.odb_step_size odb.odb_start_position odb.odb_distance odb.odb_scan_time
        (run_started st)

  unfoldable pub request_move : F × F → ScanFrontend F T → FrontendStatus × ScanFrontend F T
  request_move (x_mm, y_mm) st = (
    success,
    record st {
      calls = st.calls ++ set_destination (metres fl x_mm) (metres fl y_mm) ∷ set_start_move ∷ [];
    },
  )

  -- A read of gScanPoints past its end has no defined result.
  unfoldable pub move_to :
      ℕ → Option (F × F) → ScanFrontend F T → Option (FrontendStatus × ScanFrontend F T)
  unfolding request_move move_requested
  move_to transition none st = none
  move_to transition (some point) st =
      let (status, requested) = request_move point st in
      some (move_requested transition status requested)

  module _ (elapsed_ms : T → T → G) where
    unfoldable pub measurement_complete : T → ScanFrontend F T → Bool
    measurement_complete now st =
        fl.le_double (fl.widen (fl.add st.scan_time (fl.of_int 1000)))
          (elapsed_ms now st.time_start_measurement)

    -- frontend_loop while the gantry stands.
    unfoldable pub next_move :
        LoopInput T → ScanFrontend F T → Option (FrontendStatus × ScanFrontend F T)
    unfolding measurement_complete move_to
    next_move i st =
        if measurement_complete i.now_check st || st.points_begun == 0
        then (if ltb (length st.scan_points) st.points_begun
            then some (
              transition_status i.transition,
              record st { points_begun = 1; calls = st.calls ++ stop_run ∷ [] },
            )
            else move_to i.transition (get_elem? st.scan_points st.points_begun)
                (record st { points_begun = st.points_begun + 1 }))
        else some (success, st)

    unfoldable pub frontend_loop :
        LoopInput T → ScanFrontend F T → Option (FrontendStatus × ScanFrontend F T)
    unfolding end_move next_move
    frontend_loop i before =
        let st = record before { feloop_counter = add32 before.feloop_counter 1 } in
        if not st.called_bor
        then some (success, st)
        else if not i.state_running
        then some (success, st)
        else if not i.gantry_moving
        then next_move i (end_move i.now_start st)
        else some (success, record st { gantry_was_moving = true })
