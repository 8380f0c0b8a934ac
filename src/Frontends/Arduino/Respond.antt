-- ===== src/Frontends/Arduino/Respond.antt =====
-- What answering a request to move comes to, from the destination and velocity on.
use mpmt_test_stand.Prelude.{
  ℕ, ◌≡◌, ◌⊎◌, refl, sym, ap, ◌∙◌, Bool, true, Option, none, some, [], ◌∷◌, ◌++◌, inl, inr,
}
use mpmt_test_stand.Serial.Device.{SerialDevice}
use mpmt_test_stand.Serial.Exec.{TestStandComm, Exec, bind-inv, bind-some, ◌>>◌}
use mpmt_test_stand.Frontends.{Arith}
use mpmt_test_stand.Frontends.Helper.{arduino_move}
use mpmt_test_stand.Frontends.Arduino.{ArduinoFrontend, set_move_response, reset_move_request}
use mpmt_test_stand.Frontends.Arduino.Callbacks.{on_arduino, write_odb, answer_move}

on_arduino_cases :
    {F D A : Type 0} (r : Option (A × TestStandComm D)) (fe fe' : ArduinoFrontend F D) (a : A)
    → elim r as (λ _. Option (A × ArduinoFrontend F D)) [
      | none ↦ none
      | some (a, c) ↦ some (a, record fe { comm = c })
    ]
      ≡ some (a, fe')
    → (c : TestStandComm D) × (r ≡ some (a, c)) × (fe' ≡ record fe { comm = c })
on_arduino_cases none fe fe' a e = cc
on_arduino_cases (some (a', c)) fe fe' a e =
    let same : a' ≡ a = cc in
    let next : record fe { comm = c } ≡ fe' = cc in (c, ap (λ b. some (b, c)) same, sym next)

-- A call on `comm` that returned.
pub on_arduino-inv :
    {F D A : Type 0} (m : Exec (TestStandComm D) A) (fe fe' : ArduinoFrontend F D) (a : A)
    → on_arduino m fe ≡ some (a, fe')
    → (c : TestStandComm D) × (m fe.comm ≡ some (a, c)) × (fe' ≡ record fe { comm = c })
unfolding on_arduino
on_arduino-inv m fe fe' a e = on_arduino_cases (m fe.comm) fe fe' a e

-- The writes after a move.
abbrev answered_with : {F D : Type 0} → Bool → ArduinoFrontend F D → ArduinoFrontend F D
answered_with success fe = record fe {
  odb_writes = (fe.odb_writes ++ set_move_response true success ∷ []) ++ reset_move_request ∷ [];
}

on_arduino-some :
    {F D A : Type 0} (m : Exec (TestStandComm D) A) (fe : ArduinoFrontend F D) (a : A)
    (c : TestStandComm D)
    → m fe.comm ≡ some (a, c)
    → on_arduino m fe ≡ some (a, record fe { comm = c })
unfolding on_arduino
on_arduino-some {F = F} {D = D} {A = A} m fe a c e =
    ap
      (λ r. elim r as (λ _. Option (A × ArduinoFrontend F D)) [
        | none ↦ none
        | some (a, c) ↦ some (a, record fe { comm = c })
      ])
      e

module _ {F G D : Type 0} (fl : Arith F G) (dev : SerialDevice D) (rounds bytes : ℕ) where
  pub answer_move-cases :
      (destination velocity : Option (F × F)) (fe fe' : ArduinoFrontend F D)
      → answer_move fl dev rounds bytes destination velocity fe ≡ some (tt, fe')
      → ((d : F × F) × (v : F × F) × (success : Bool) × (c : TestStandComm D) × (destination
            ≡ some d)
          × (velocity ≡ some v)
          × (arduino_move fl dev rounds bytes fe.settings.pulley_dia d v fe.comm
              ≡ some (success, c))
          × (fe' ≡ record fe {
            comm = c;
            odb_writes =
                (fe.odb_writes ++ set_move_response true success ∷ []) ++ reset_move_request ∷ [];
          }))
        ⊎ (((destination ≡ none) ⊎ (velocity ≡ none)) × (fe' ≡ fe))
  unfolding answer_move write_odb
  answer_move-cases none velocity fe fe' e = inr (inl refl, cc)
  answer_move-cases (some d) none fe fe' e = inr (inr refl, cc)
  answer_move-cases (some d) (some v) fe fe' e =
      let go = arduino_move fl dev rounds bytes fe.settings.pulley_dia d v in
      let respond : Bool → Exec (ArduinoFrontend F D) (Unit {0}) =
        λ success. write_odb (set_move_response true success) >> write_odb reset_move_request in
      let (success, mid, moved, rest) = bind-inv (on_arduino go) respond fe (tt, fe') e in
      let (c, run, same) = on_arduino-inv go fe mid success moved in
      let last : record mid {
        odb_writes =
            (mid.odb_writes ++ set_move_response true success ∷ []) ++ reset_move_request ∷ [];
      }
          ≡ fe' =
        cc in
      inl (d, v, success, c, refl, refl, run, sym last ∙ ap (answered_with success) same)

  pub answer_move-none :
      (destination velocity : Option (F × F)) (fe : ArduinoFrontend F D)
      → (destination ≡ none) ⊎ (velocity ≡ none)
      → answer_move fl dev rounds bytes destination velocity fe ≡ some (tt, fe)
  unfolding answer_move
  answer_move-none none velocity fe h = refl
  answer_move-none (some d) none fe h = refl
  answer_move-none (some d) (some v) fe (inl e) = cc
  answer_move-none (some d) (some v) fe (inr e) = cc

  pub answer_move-some :
      (d v : F × F) (success : Bool) (c : TestStandComm D) (fe : ArduinoFrontend F D)
      → arduino_move fl dev rounds bytes fe.settings.pulley_dia d v fe.comm ≡ some (success, c)
      → answer_move fl dev rounds bytes (some d) (some v) fe
        ≡ some (
          tt,
          record fe {
            comm = c;
            odb_writes =
                (fe.odb_writes ++ set_move_response true success ∷ []) ++ reset_move_request ∷ [];
          },
        )
  unfolding answer_move write_odb
  answer_move-some d v success c fe e =
      let go = arduino_move fl dev rounds bytes fe.settings.pulley_dia d v in
      let respond : Bool → Exec (ArduinoFrontend F D) (Unit {0}) =
        λ success. write_odb (set_move_response true success) >> write_odb reset_move_request in
      bind-some (on_arduino go) respond {s = fe} (on_arduino-some go fe success c e)
