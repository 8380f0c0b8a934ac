-- ===== src/Frontends/Scan/Visits.antt =====
-- A whole run of a scan: begin_of_run, and then calls of frontend_loop.
use mpmt_test_stand.Prelude.{
  ℕ, zero, suc, ◌≤◌, ◌≡◌, refl, sym, ap, subst, ◌∙◌, Bool, true, false, Option, none, some, List,
  [], ◌∷◌, ◌++◌, append_assoc, append_cancel_right, append-take-drop, arith, length, take, drop,
  if◌then◌else◌, ◌↔◌,
}
use mpmt_test_stand.Serial.Exec.Keeps.{After}
use mpmt_test_stand.Frontends.{Arith, FrontendStatus}
use mpmt_test_stand.Frontends.Scan.{
  MidasCall, ScanFrontend, ScanOdb, ScanSettings, LoopInput, rectangular_scan,
}
use mpmt_test_stand.Frontends.Scan.Run.{
  begin_of_run, begin_settings, begin_timed, frontend_loop, scan_set_up,
}
use mpmt_test_stand.Frontends.Scan.Progress.{
  Tour, tour, visit_calls, requests, visit, visit_next, map_tour, is_due, frontend_loop-tour,
}
use mpmt_test_stand.Frontends.Scan.Within.{IsWithin, frontend_loop-IsWithin}

module _ {F G : Type 0} (fl : Arith F G) where
  -- What is asked of MIDAS when the tour goes on to its end.
  abbrev remaining : Tour F → List (MidasCall F)
  remaining t = t.asked ++ requests fl t.route

  requests-append :
      (ps qs : List (F × F)) → requests fl (ps ++ qs) ≡ requests fl ps ++ requests fl qs
  unfolding requests
  requests-append [] qs = refl
  requests-append (p ∷ ps) qs = rw (requests-append ps qs) refl

  visit-remaining :
      (route : List (F × F)) (asked : List (MidasCall F)) (t : Tour F)
      → visit fl (record { route = route; asked = asked }) ≡ some t
      → remaining t ≡ asked ++ requests fl route
  unfolding visit visit_next requests
  visit-remaining [] asked t e = cc
  visit-remaining (p ∷ ps) asked t e =
      let next : t ≡ record { route = ps; asked = asked ++ visit_calls fl p } = cc in
      rw next (append_assoc asked (visit_calls fl p) (requests fl ps))

  visited :
      (n : ℕ) (points : List (F × F)) (calls asked : List (MidasCall F))
      → calls ++ requests fl (drop n points) ≡ asked ++ requests fl points
      → calls ≡ asked ++ requests fl (take n points)
  visited n points calls asked e =
      append_cancel_right calls (asked ++ requests fl (take n points)) (requests fl (drop n points))
        (e
          ∙ ap (λ ps. asked ++ requests fl ps) (sym (append-take-drop n points))
          ∙ ap (λ cs. asked ++ cs) (requests-append (take n points) (drop n points))
          ∙ sym (append_assoc asked (requests fl (take n points)) (requests fl (drop n points))))

  step-remaining :
      (due : Bool) (t t' : Tour F)
      → some t' ≡ (if due then visit fl t else some t)
      → remaining t' ≡ remaining t
  step-remaining true t t' e = visit-remaining t.route t.asked t' (sym e)
  step-remaining false t t' e = let same : t' ≡ t = cc in ap remaining same

module _ {F G T : Type 0} (fl : Arith F G) (elapsed_ms : T → T → G) where
  unfoldable pub loops : List (LoopInput T) → ScanFrontend F T → Option (ScanFrontend F T)
  loops [] st = some st
  loops (i ∷ is) st = elim (frontend_loop fl elapsed_ms i st) [
    | none ↦ none
    | some (status, st') ↦ loops is st'
  ]

  abbrev Touring : List (F × F) → List (MidasCall F) → ScanFrontend F T → Type 0
  Touring points calls st = IsWithin points st × (remaining fl (tour st) ≡ calls)

  step-Touring :
      (rest : ScanFrontend F T → Option (ScanFrontend F T)) (points : List (F × F))
      (asked : List (MidasCall F)) (st st' : ScanFrontend F T)
      → ((mid : ScanFrontend F T)
          → Touring points asked mid
          → rest mid ≡ some st'
          → Touring points asked st')
      → (due : Bool) (r : Option (FrontendStatus × ScanFrontend F T))
      → remaining fl (tour st) ≡ asked
      → After (IsWithin points) r
      → map_tour r ≡ (if due then visit fl (tour st) else some (tour st))
      → elim r as (λ _. Option (ScanFrontend F T)) [ none ↦ none | some (status, next) ↦ rest next ]
        ≡ some st'
      → Touring points asked st'
  step-Touring rest points asked st st' more due none e w m run = cc
  step-Touring rest points asked st st' more due (some (status, next)) e w m run =
      more next (w, step-remaining fl due (tour st) (tour next) m ∙ e) run

  loops-Touring :
      (is : List (LoopInput T)) (points : List (F × F)) (asked : List (MidasCall F))
      (st st' : ScanFrontend F T)
      → Touring points asked st
      → loops is st ≡ some st'
      → Touring points asked st'
  unfolding loops
  loops-Touring [] points asked st st' h run =
      let same : st ≡ st' = cc in subst (Touring points asked) same h
  loops-Touring (i ∷ is) points asked st st' ((same, inside), e) run =
      step-Touring (loops is) points asked st st' (λ mid. loops-Touring is points asked mid st')
        (is_due fl elapsed_ms i st) (frontend_loop fl elapsed_ms i st) e
        (frontend_loop-IsWithin fl elapsed_ms points i st (same, inside))
        (frontend_loop-tour fl elapsed_ms i st (rw same inside)) run

drop-empty : {A : Type 0} (xs : List A) (n : ℕ) → n ≤ length xs → (drop n xs ≡ []) ↔ (n ≡ length xs)
drop-empty [] zero h = (λ _. refl, λ _. refl)
drop-empty [] (suc n) h = elim h [ ]
drop-empty (x ∷ xs) zero h = (λ e. cc, λ e. (let no : 1 ≤ 0 = omega arith in elim no [ ]))
drop-empty (x ∷ xs) (suc n) h =
    let (to, from) = drop-empty xs n (omega arith) in (λ e. ap suc (to e), λ e. from (omega arith))

-- A call that visits the next point has none exactly at the end.
visit-none :
    {F G T : Type 0} (fl : Arith F G) (r : Option (FrontendStatus × ScanFrontend F T))
    (route : List (F × F)) (asked : List (MidasCall F))
    → map_tour r ≡ visit fl (record { route = route; asked = asked })
    → (r ≡ none) ↔ (route ≡ [])
unfolding visit visit_next
visit-none fl none [] asked e = (λ _. refl, λ _. refl)
visit-none fl none (p ∷ ps) asked e = cc
visit-none fl (some (status, next)) [] asked e = cc
visit-none fl (some (status, next)) (p ∷ ps) asked e = (λ n. cc, λ n. cc)

-- A database that has these settings.
abbrev pub settings_read : {F : Type 0} → ScanSettings F → F → ScanOdb F
settings_read s time = record {
  odb_step_size = some s.step_size;
  odb_start_position = some s.start_position;
  odb_distance = some s.distance;
  odb_scan_time = some time;
}

module _ {F G T : Type 0} (fl : Arith F G) (elapsed_ms : T → T → G) (s : ScanSettings F)
    (time : F) where
  begin_of_run-Touring :
      (st : ScanFrontend F T)
      → Touring fl elapsed_ms
          (rectangular_scan fl s)
          (st.calls ++ requests fl (rectangular_scan fl s))
          (begin_of_run fl (settings_read s time) st).1
  unfolding begin_of_run begin_settings begin_timed scan_set_up tour
  begin_of_run-Touring st = ((refl, omega arith), refl)

  -- After a begin_of_run that could read its settings, and after any calls of frontend_loop that
  -- all return: exactly the moves to the points begun were asked for, in the order of the scan,
  -- and the run was never told to stop.
  pub run-visits :
      (is : List (LoopInput T)) (st st' : ScanFrontend F T)
      → loops fl elapsed_ms is (begin_of_run fl (settings_read s time) st).1 ≡ some st'
      → let points = rectangular_scan fl s in
        (st'.scan_points ≡ points)
        × (st'.points_begun ≤ length points)
        × (st'.calls ≡ st.calls ++ requests fl (take st'.points_begun points))
  unfolding tour
  run-visits is st st' run =
      let points = rectangular_scan fl s in
      let ((same, inside), asked) =
        loops-Touring fl elapsed_ms is points (st.calls ++ requests fl points)
          (begin_of_run fl (settings_read s time) st).1 st' (begin_of_run-Touring st) run in
      (same, inside, visited fl st'.points_begun points st'.calls st.calls (rw same at asked))

  -- After a begin_of_run that could read its settings and calls of frontend_loop that all
  -- returned, let a further point be due. The next call reads outside of the points of the scan
  -- exactly if all points are begun.
  pub end_of_points :
      (is : List (LoopInput T)) (i : LoopInput T) (st st' : ScanFrontend F T)
      → loops fl elapsed_ms is (begin_of_run fl (settings_read s time) st).1 ≡ some st'
      → is_due fl elapsed_ms i st' ≡ true
      → (frontend_loop fl elapsed_ms i st' ≡ none)
        ↔ (st'.points_begun ≡ length (rectangular_scan fl s))
  unfolding tour
  end_of_points is i st st' run due =
      let points = rectangular_scan fl s in
      let (same, inside, _) = run-visits is st st' run in
      let step = frontend_loop-tour fl elapsed_ms i st' (rw same inside) in
      let (no_call, no_point) =
        visit-none fl (frontend_loop fl elapsed_ms i st') (drop st'.points_begun st'.scan_points)
          st'.calls (rw due at step) in
      let (last, past) = drop-empty points st'.points_begun inside in
      (λ e. last (rw same at (no_call e)), λ e. no_point (rw same (past e)))
