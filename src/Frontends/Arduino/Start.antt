-- ===== src/Frontends/Arduino/Start.antt =====
-- What a start of the front end takes from the database.
use mpmt_test_stand.Prelude.{
  ℕ, ◌≡◌, ◌≢◌, refl, sym, ap, ◌∙◌, Bool, true, false, some, List, [], ◌∷◌, ◌==◌, not, if◌then◌else◌,
  Bool-cases, inl, inr,
}
use mpmt_test_stand.Serial.Device.{SerialDevice}
use mpmt_test_stand.Serial.Exec.{TestStandComm, Exec, pure, bind-inv, ◌>>=◌}
use mpmt_test_stand.Frontends.{Arith, FrontendStatus, success, fe_err_odb, fe_err_hw}
use mpmt_test_stand.Frontends.Helper.{arduino_connect, arduino_calibrate}
use mpmt_test_stand.Frontends.Arduino.{ArduinoFrontend, ArduinoSettings, OdbKey, OdbAnswer, stored}
use mpmt_test_stand.Frontends.Arduino.Callbacks.{
  on_arduino, setup_odb_var, setup_odb_vars, calibration_of, send_calibration, settings_vars,
  request_vars, frontend_init,
}
use mpmt_test_stand.Frontends.Arduino.Respond.{on_arduino-inv}

-- The settings after some variables are read.
stored_all :
    {F : Type 0} → ArduinoSettings F → List (OdbKey × Bool) → ArduinoSettings F → ArduinoSettings F
stored_all odb [] s = s
stored_all odb ((key, hotlink) ∷ rest) s = stored_all odb rest (stored key odb s)

-- What a chain that succeeds went through.
taken :
    {S : Type 0} (t : Bool) (n : Exec S Bool) (s s' : S)
    → (if t then n else pure false) s ≡ some (true, s')
    → (t ≡ true) × (n s ≡ some (true, s'))
taken true n s s' e = (refl, e)
taken false n s s' e = cc

guarded :
    {S : Type 0} (t : Bool) (error : FrontendStatus) (n : Exec S FrontendStatus) (s s' : S)
    → error ≢ success
    → (if not t then pure error else n) s ≡ some (success, s')
    → (t ≡ true) × (n s ≡ some (success, s'))
guarded true error n s s' differs e = (refl, e)
guarded false error n s s' differs e = let same : error ≡ success = cc in elim (differs same) [ ]

-- A step that has to succeed for the rest to run.
checked-inv :
    {S : Type 0} (m : Exec S Bool) (error : FrontendStatus) (n : Exec S FrontendStatus) (s s' : S)
    → error ≢ success
    → (m >>= λ ok. if not ok then pure error else n) s ≡ some (success, s')
    → (mid : S) × (m s ≡ some (true, mid)) × (n mid ≡ some (success, s'))
checked-inv m error n s s' differs e =
    let (ok, mid, step, rest) =
      bind-inv m (λ ok. if not ok then pure error else n) s (success, s') e in
    let (held, run) = guarded ok error n mid s' differs rest in
    (mid, step ∙ ap (λ b. some (b, mid)) held, run)

finished :
    {S : Type 0} (hot : Bool) (s s' : S)
    → pure (if hot then success else fe_err_odb) s ≡ some (success, s')
    → (hot ≡ true) × (s ≡ s')
finished true s s' e = (refl, cc)
finished false s s' e = cc

module _ {F D : Type 0} (odb : ArduinoSettings F) (answers : OdbKey → OdbAnswer) where
  reading : ArduinoFrontend F D → List (OdbKey × Bool) → ArduinoFrontend F D
  reading f vars = record f { settings = stored_all odb vars f.settings }

  setup_odb_var-true :
      (key : OdbKey) (hotlink : Bool) (fe fe' : ArduinoFrontend F D)
      → setup_odb_var odb answers key hotlink fe ≡ some (true, fe')
      → record fe { settings = stored key odb fe.settings } ≡ fe'
  unfolding setup_odb_var
  setup_odb_var-true key hotlink fe fe' e = elim (Bool-cases (answers key).got) [
    | inl got ↦ (let run = rw got at e in cc)
    | inr missing ↦ (let run = rw missing at e in cc)
  ]

  setup_odb_vars-true :
      (vars : List (OdbKey × Bool)) (fe fe' : ArduinoFrontend F D)
      → setup_odb_vars odb answers vars fe ≡ some (true, fe')
      → reading fe vars ≡ fe'
  unfolding setup_odb_vars stored_all reading
  setup_odb_vars-true [] fe fe' e = cc
  setup_odb_vars-true ((key, hotlink) ∷ rest) fe fe' e =
      let (ok, mid, first, run) =
        bind-inv (setup_odb_var odb answers key hotlink)
          (λ ok. if ok then setup_odb_vars odb answers rest else pure false) fe (true, fe') e in
      let (held, run') = taken ok (setup_odb_vars odb answers rest) mid fe' run in
      let step = setup_odb_var-true key hotlink fe mid (first ∙ ap (λ b. some (b, mid)) held) in
      ap (λ f. reading f rest) step ∙ setup_odb_vars-true rest mid fe' run'

stored-every :
    {F : Type 0} (odb s : ArduinoSettings F)
    → stored_all odb request_vars (stored_all odb settings_vars s) ≡ odb
unfolding stored_all stored
stored-every odb s = refl

calibration_of-stored :
    {F G : Type 0} (fl : Arith F G) (odb s : ArduinoSettings F)
    → calibration_of fl (stored_all odb settings_vars s) ≡ calibration_of fl odb
unfolding stored_all stored calibration_of
calibration_of-stored fl odb s = refl

module _ {F G D : Type 0} (fl : Arith F G) (dev : SerialDevice D) (rounds bytes : ℕ) where
  -- The last steps of frontend_init.
  abbrev hot_links :
      Bool → ArduinoSettings F → (OdbKey → OdbAnswer) → Exec (ArduinoFrontend F D) FrontendStatus
  hot_links big_endian odb answers = send_calibration fl dev rounds bytes big_endian >>= λ _.
      setup_odb_vars odb answers request_vars >>= λ hot. pure (if hot then success else fe_err_odb)

  hot_links-success :
      (big_endian : Bool) (odb : ArduinoSettings F) (answers : OdbKey → OdbAnswer)
      (fe fe' : ArduinoFrontend F D)
      → hot_links big_endian odb answers fe ≡ some (success, fe')
      → (sent : Bool) × (arduino_calibrate dev rounds bytes big_endian
            (calibration_of fl fe.settings)
            fe.comm
          ≡ some (sent, fe'.comm))
        × (fe'.settings ≡ stored_all odb request_vars fe.settings)
  unfolding send_calibration reading
  hot_links-success big_endian odb answers fe fe' e =
      let finish : Bool → Exec (ArduinoFrontend F D) FrontendStatus =
        λ hot. pure (if hot then success else fe_err_odb) in
      let (sent, mid, calibrated, e1) =
        bind-inv (send_calibration fl dev rounds bytes big_endian)
          (λ _. setup_odb_vars odb answers request_vars >>= finish) fe (success, fe') e in
      let (hot, last, linked, e2) =
        bind-inv (setup_odb_vars odb answers request_vars) finish mid (success, fe') e1 in
      let (is_hot, same) = finished hot last fe' e2 in
      let (c, run, mid_is) =
        on_arduino-inv
          (arduino_calibrate dev rounds bytes big_endian (calibration_of fl fe.settings)) fe mid
          sent calibrated in
      let last_is =
        setup_odb_vars-true odb answers request_vars mid last
          (linked ∙ ap (λ b. some (b, last)) is_hot) in
      (
        sent,
        run
            ∙ ap (λ d. some (sent, d))
                (ap (λ f. f.comm) (sym mid_is) ∙ ap (λ f. f.comm) last_is ∙ ap (λ f. f.comm) same),
        ap (λ f. f.settings) (sym same)
            ∙ ap (λ f. f.settings) (sym last_is)
            ∙ ap (λ f. stored_all odb request_vars f.settings) mid_is,
      )

  -- When frontend_init reports success, all settings of the front end are those of the database,
  -- the link to the controller was made, and after that the calibration of the database was sent,
  -- whether or not it was accepted.
  pub frontend_init-success :
      (argc polls baud_rate : ℕ) (connected big_endian : Bool) (odb : ArduinoSettings F)
      (answers : OdbKey → OdbAnswer) (fe fe' : ArduinoFrontend F D)
      → frontend_init fl dev rounds bytes argc polls baud_rate connected big_endian odb answers fe
        ≡ some (success, fe')
      → (fe'.settings ≡ odb)
        × (c : TestStandComm D) × (sent : Bool) × (arduino_connect dev rounds bytes polls baud_rate
              fe.comm
            ≡ some (true, c))
        × (arduino_calibrate dev rounds bytes big_endian (calibration_of fl odb) c
            ≡ some (sent, fe'.comm))
  unfolding frontend_init reading
  frontend_init-success argc polls baud_rate connected big_endian odb answers fe fe' e =
      let hot = hot_links big_endian odb answers in
      let read_odb = setup_odb_vars odb answers settings_vars >>= λ read.
      if not read then pure fe_err_odb else hot in
      let database = if not connected then pure fe_err_odb else read_odb in
      let connect = arduino_connect dev rounds bytes polls baud_rate in
      let linked = on_arduino connect >>= λ ok. if not ok then pure fe_err_hw else database in
      let (_, e1) = guarded (argc == 2) fe_err_hw linked fe fe' (λ no. cc) e in
      let (fe1, joined, e2) =
        checked-inv (on_arduino connect) fe_err_hw database fe fe' (λ no. cc) e1 in
      let (_, e3) = guarded connected fe_err_odb read_odb fe1 fe' (λ no. cc) e2 in
      let (fe2, got, e4) =
        checked-inv (setup_odb_vars odb answers settings_vars) fe_err_odb hot fe1 fe' (λ no. cc)
          e3 in
      let (c, run, fe1_is) = on_arduino-inv connect fe fe1 true joined in
      let fe2_is = setup_odb_vars-true odb answers settings_vars fe1 fe2 got in
      let (sent, calibrated, settings) = hot_links-success big_endian odb answers fe2 fe' e4 in
      let read : fe2.settings ≡ stored_all odb settings_vars fe1.settings =
        ap (λ f. f.settings) (sym fe2_is) in
      let same : fe2.comm ≡ c = ap (λ f. f.comm) (sym fe2_is) ∙ ap (λ f. f.comm) fe1_is in
      let send = arduino_calibrate dev rounds bytes big_endian in
      let cal = ap (calibration_of fl) read ∙ calibration_of-stored fl odb fe1.settings in
      (
        settings ∙ ap (stored_all odb request_vars) read ∙ stored-every odb fe1.settings,
        c,
        sent,
        run,
        sym (ap (λ k. send k fe2.comm) cal ∙ ap (send (calibration_of fl odb)) same) ∙ calibrated,
      )
