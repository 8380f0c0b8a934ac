-- ===== src/Frontends/Arduino/Answers.antt =====
-- What a request to move leaves in the database.
use mpmt_test_stand.Prelude.{
  ℕ, ◌≡◌, ◌⊎◌, ◌↔◌, refl, sym, ap, ◌∙◌, Bool, true, false, Option, none, some, List, [], ◌∷◌, ◌++◌,
  append_assoc, Bool-cases, inl, inr,
}
use mpmt_test_stand.Serial.Device.{SerialDevice}
use mpmt_test_stand.Serial.Exec.{TestStandComm}
use mpmt_test_stand.Frontends.{Arith}
use mpmt_test_stand.Frontends.Helper.{arduino_move}
use mpmt_test_stand.Frontends.Arduino.{
  ArduinoFrontend, MoveOdb, OdbWrite, set_move_response, reset_move_request,
}
use mpmt_test_stand.Frontends.Arduino.Respond.{
  answer_move-cases, answer_move-none, answer_move-some,
}
use mpmt_test_stand.Frontends.Arduino.Callbacks.{write_odb, answer_move, move_request}

-- A run has one outcome.
returned :
    {S : Type 0} {r : Option (Unit {0} × S)} {s s' : S}
    → r ≡ some (tt, s)
    → r ≡ some (tt, s')
    → s' ≡ s
returned e e' = cc

three_writes :
    (ws : List OdbWrite) (success : Bool)
    → ((ws ++ set_move_response false false ∷ []) ++ set_move_response true success ∷ [])
        ++ reset_move_request ∷ []
      ≡ ws
        ++ set_move_response false false ∷ set_move_response true success ∷ reset_move_request ∷ []
three_writes ws success =
    append_assoc (ws ++ set_move_response false false ∷ []) (set_move_response true success ∷ [])
      (reset_move_request ∷ [])
    ∙ append_assoc ws (set_move_response false false ∷ [])
        (set_move_response true success ∷ reset_move_request ∷ [])

module _ {F G D : Type 0} (fl : Arith F G) (dev : SerialDevice D) (rounds bytes : ℕ) where
  -- The request was carried out, and all that it changed.
  abbrev pub Answered : MoveOdb F → ArduinoFrontend F D → ArduinoFrontend F D → Type 0
  Answered odb fe fe' =
      (destination : F × F) × (velocity : F × F) × (success : Bool) × (c : TestStandComm D)
      × (fe.settings.is_move_requested ≡ true)
      × (odb.cleared ≡ true)
      × (odb.destination ≡ some destination)
      × (odb.velocity ≡ some velocity)
      × (arduino_move fl dev rounds bytes fe.settings.pulley_dia destination velocity fe.comm
          ≡ some (success, c))
      × (fe' ≡ record fe {
        comm = c;
        odb_writes =
            fe.odb_writes
            ++ set_move_response false false
              ∷ set_move_response true success
              ∷ reset_move_request
              ∷ [];
      })

  -- The request was dropped when the database failed: only the response is cleared.
  abbrev pub Dropped : MoveOdb F → ArduinoFrontend F D → ArduinoFrontend F D → Type 0
  Dropped odb fe fe' =
      (fe.settings.is_move_requested ≡ true)
      × ((odb.cleared ≡ false) ⊎ (odb.destination ≡ none) ⊎ (odb.velocity ≡ none))
      × (fe' ≡ record fe { odb_writes = fe.odb_writes ++ set_move_response false false ∷ [] })

  -- Nothing was requested, and nothing changed.
  abbrev pub Unasked : ArduinoFrontend F D → ArduinoFrontend F D → Type 0
  Unasked fe fe' = (fe.settings.is_move_requested ≡ false) × (fe' ≡ fe)

  -- A request before the database answers.
  requested_run :
      (odb : MoveOdb F) (fe : ArduinoFrontend F D)
      → fe.settings.is_move_requested ≡ true
      → odb.cleared ≡ true
      → move_request fl dev rounds bytes odb fe
        ≡ answer_move fl dev rounds bytes odb.destination odb.velocity
            (record fe { odb_writes = fe.odb_writes ++ set_move_response false false ∷ [] })
  unfolding move_request write_odb
  requested_run odb fe requested ok = rw requested (rw ok refl)

  failed_run :
      (odb : MoveOdb F) (fe : ArduinoFrontend F D)
      → fe.settings.is_move_requested ≡ true
      → odb.cleared ≡ false
      → move_request fl dev rounds bytes odb fe
        ≡ some (tt, record fe { odb_writes = fe.odb_writes ++ set_move_response false false ∷ [] })
  unfolding move_request write_odb
  failed_run odb fe requested failed = rw requested (rw failed refl)

  idle_run :
      (odb : MoveOdb F) (fe : ArduinoFrontend F D)
      → fe.settings.is_move_requested ≡ false
      → move_request fl dev rounds bytes odb fe ≡ some (tt, fe)
  unfolding move_request
  idle_run odb fe idle = rw idle refl

  dropped_run :
      (odb : MoveOdb F) (fe : ArduinoFrontend F D)
      → fe.settings.is_move_requested ≡ true
      → (odb.cleared ≡ false) ⊎ (odb.destination ≡ none) ⊎ (odb.velocity ≡ none)
      → move_request fl dev rounds bytes odb fe
        ≡ some (tt, record fe { odb_writes = fe.odb_writes ++ set_move_response false false ∷ [] })
  dropped_run odb fe requested (inl failed) = failed_run odb fe requested failed
  dropped_run odb fe requested (inr missing) = elim (Bool-cases odb.cleared) [
    | inl ok ↦
        requested_run odb fe requested ok
        ∙ answer_move-none fl dev rounds bytes odb.destination odb.velocity _ missing
    | inr failed ↦ failed_run odb fe requested failed
  ]

  answered_run :
      (odb : MoveOdb F) (fe : ArduinoFrontend F D) (d v : F × F) (success : Bool)
      (c : TestStandComm D)
      → fe.settings.is_move_requested ≡ true
      → odb.cleared ≡ true
      → odb.destination ≡ some d
      → odb.velocity ≡ some v
      → arduino_move fl dev rounds bytes fe.settings.pulley_dia d v fe.comm ≡ some (success, c)
      → move_request fl dev rounds bytes odb fe
        ≡ some (
          tt,
          record fe {
            comm = c;
            odb_writes =
                fe.odb_writes
                ++ set_move_response false false
                  ∷ set_move_response true success
                  ∷ reset_move_request
                  ∷ [];
          },
        )
  answered_run odb fe d v success c requested ok ed ev run =
      requested_run odb fe requested ok
      ∙ rw ed (rw ev (answer_move-some fl dev rounds bytes d v success c _ run))
      ∙ ap (λ ws. some (tt, record fe { comm = c; odb_writes = ws }))
          (three_writes fe.odb_writes success)

  move_request-outcome :
      (odb : MoveOdb F) (fe fe' : ArduinoFrontend F D)
      → move_request fl dev rounds bytes odb fe ≡ some (tt, fe')
      → Unasked fe fe' ⊎ Dropped odb fe fe' ⊎ Answered odb fe fe'
  move_request-outcome odb fe fe' e = elim (Bool-cases fe.settings.is_move_requested) [
    | inr idle ↦ inl (idle, returned (idle_run odb fe idle) e)
    | inl requested ↦ elim (Bool-cases odb.cleared) [
      | inr failed ↦
          inr (inl (requested, inl failed, returned (failed_run odb fe requested failed) e))
      | inl ok ↦
          elim (answer_move-cases fl dev rounds bytes odb.destination odb.velocity _ fe'
            (sym (requested_run odb fe requested ok) ∙ e)) [
              | inl (d, v, success, c, ed, ev, run, same) ↦ inr (
                  inr (
                    d,
                    v,
                    success,
                    c,
                    requested,
                    ok,
                    ed,
                    ev,
                    run,
                    same
                        ∙ ap (λ ws. record fe { comm = c; odb_writes = ws })
                            (three_writes fe.odb_writes success),
                  ))
              | inr (missing, same) ↦ inr (inl (requested, inr missing, same))
            ]
    ]
  ]

  -- move_request returns with a front end `fe'` exactly if one of these holds. Nothing is
  -- requested and `fe'` is the front end before. Or a move is requested, the response cannot be
  -- cleared or the destination or the velocity cannot be read, and `fe'` differs only by the write
  -- of the cleared response. Or a move is requested, the database works, the move of that
  -- destination and velocity returned, and `fe'` differs by what the move made of the connection
  -- and by three writes, in this order: the cleared response, the response with the result of the
  -- move, and the reset of the request.
  pub move_request-cases :
      (odb : MoveOdb F) (fe fe' : ArduinoFrontend F D)
      → (move_request fl dev rounds bytes odb fe ≡ some (tt, fe'))
        ↔ (Unasked fe fe' ⊎ Dropped odb fe fe' ⊎ Answered odb fe fe')
  move_request-cases odb fe fe' = (
    move_request-outcome odb fe fe',
    λ h. elim h [
      | inl (idle, same) ↦ idle_run odb fe idle ∙ ap (λ f. some (tt, f)) (sym same)
      | inr (inl (requested, why, same)) ↦
          dropped_run odb fe requested why ∙ ap (λ f. some (tt, f)) (sym same)
      | inr (inr (d, v, success, c, requested, ok, ed, ev, run, same)) ↦
          answered_run odb fe d v success c requested ok ed ev run
          ∙ ap (λ f. some (tt, f)) (sym same)
    ],
  )
