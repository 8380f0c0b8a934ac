-- ===== src/Frontends/Scan/Idle.antt =====
-- The loop of a scan outside of a run.
use mpmt_test_stand.Prelude.{◌≡◌, refl, ap, ◌∙◌, false, Option, none, some, List, [], ◌∷◌, add32}
use mpmt_test_stand.Frontends.{Arith, FrontendStatus, success, cm_db_error}
use mpmt_test_stand.Frontends.Scan.{ScanFrontend, ScanOdb, LoopInput}
use mpmt_test_stand.Frontends.Scan.Run.{
  begin_of_run, end_of_run, run_started, begin_settings, begin_timed, frontend_loop,
}
use mpmt_test_stand.Frontends.Scan.Visits.{loops}

module _ {F G T : Type 0} (fl : Arith F G) (elapsed_ms : T → T → G) where
  idle-loop :
      (i : LoopInput T) (st : ScanFrontend F T)
      → st.called_bor ≡ false
      → frontend_loop fl elapsed_ms i st
        ≡ some (success, record st { feloop_counter = add32 st.feloop_counter 1 })
  unfolding frontend_loop
  idle-loop i st e = rw e refl

  loops-some :
      (i : LoopInput T) (is : List (LoopInput T)) (st st' : ScanFrontend F T)
      (status : FrontendStatus)
      → frontend_loop fl elapsed_ms i st ≡ some (status, st')
      → loops fl elapsed_ms (i ∷ is) st ≡ loops fl elapsed_ms is st'
  unfolding loops
  loops-some i is st st' status e =
      ap
        (λ r. elim r as (λ _. Option (ScanFrontend F T)) [
          | none ↦ none
          | some (status, next) ↦ loops fl elapsed_ms is next
        ])
        e

  -- The loop outside of a run.
  idle-loops :
      (is : List (LoopInput T)) (st : ScanFrontend F T)
      → st.called_bor ≡ false
      → (st' : ScanFrontend F T) × (loops fl elapsed_ms is st ≡ some st') × (st'.calls ≡ st.calls)
  unfolding loops
  idle-loops [] st e = (st, refl, refl)
  idle-loops (i ∷ is) st e =
      let counted : ScanFrontend F T = record st { feloop_counter = add32 st.feloop_counter 1 } in
      let (st', run, same) = idle-loops is counted e in
      (st', loops-some i is st counted success (idle-loop i st e) ∙ run, same)

  not_begun :
      (step time : Option F) (start distance : Option (F × F)) (st : ScanFrontend F T)
      → let (status, st') = begin_settings fl step start distance time st in
        status ≡ cm_db_error → (st'.called_bor ≡ st.called_bor) × (st'.calls ≡ st.calls)
  unfolding begin_settings begin_timed
  not_begun none time start distance st e = (refl, refl)
  not_begun (some step) time none distance st e = (refl, refl)
  not_begun (some step) time (some start) none st e = (refl, refl)
  not_begun (some step) none (some start) (some distance) st e = (refl, refl)
  not_begun (some step) (some time) (some start) (some distance) st e = cc

  -- Between the end of a run and a begin_of_run that fails to read a setting, any calls of
  -- frontend_loop return and ask for nothing.
  pub failed_run :
      (odb : ScanOdb F) (is : List (LoopInput T)) (before : ScanFrontend F T)
      → let st = (end_of_run before).1 in
        let (status, failed) = begin_of_run fl odb st in
        status ≡ cm_db_error
        → (st' : ScanFrontend F T) × (loops fl elapsed_ms is failed ≡ some st')
          × (st'.calls ≡ before.calls)
  unfolding begin_of_run end_of_run
  failed_run odb is before e =
      let st = run_started (end_of_run before).1 in
      let (called, asked) =
        not_begun odb.odb_step_size odb.odb_scan_time odb.odb_start_position odb.odb_distance st
          e in
      let (st', run, same) = idle-loops is _ called in (st', run, same ∙ asked)
