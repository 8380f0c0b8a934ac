-- ===== src/Terminal/Effects.antt =====
-- What the functions behind the commands leave alone: the lines that are still to be read, and, but for
-- two of them, whether the loop goes on.
use mpmt_test_stand.Prelude.{
  ℕ, ◌≡◌, ◌⊎◌, inl, inr, refl, Bool, true, false, Option, none, some, List, [], ◌∷◌, if◌then◌else◌,
}
use mpmt_test_stand.Serial.Device.{SerialDevice}
use mpmt_test_stand.Serial.Exec.{TestStandComm, Exec, pure, bind-inv, ◌>>=◌}
use mpmt_test_stand.Serial.Exec.Keeps.{After, Keeps, Keeps-pure, Keeps-bind, Keeps-if, Keeps-run}
use mpmt_test_stand.Terminal.{
  CommandId, cmd_id_ping, cmd_id_get_status, cmd_id_home, cmd_id_move, cmd_id_stop,
  cmd_id_get_position, cmd_id_get_temp, cmd_id_get_axis_state, cmd_id_link_check, cmd_id_reset,
  cmd_id_help, cmd_id_exit, Printed, puts, Terminal, Outcome, returned, undefined, print, on_link,
}
use mpmt_test_stand.Terminal.Stream.{StringStream}
use mpmt_test_stand.Terminal.Moves.{MoveCommand, read_move}
use mpmt_test_stand.Terminal.Handlers.{
  print_all, reporting, print_cmd_usage, help_general, show_command, help_specific, help, exit,
  basic_cmd, send_move, obey_move, move, get_status, get_position, get_temp, get_axis_state,
  link_check, connect_to_arduino, reset, handler,
}

-- An action that never asks the loop to end.
pub record Stays {D : Type 0} (m : Exec (Terminal D) Outcome) : Type 0 where
  pub at : (t t' : Terminal D) → m t ≡ some (returned false, t') → ⊥

-- The lines that are still to be read are `lines`.
abbrev pub Unread : {D : Type 0} → List (List ℕ) → Terminal D → Type 0
Unread lines t = t.stdin ≡ lines

-- The terminal after it has prompted and taken a line.
abbrev pub prompted : {D : Type 0} → Terminal D → List (List ℕ) → Terminal D
prompted t lines = record t { stdin = lines; printed = puts "> " ∷ t.printed }

module _ {D : Type 0} where
  Stays-true : Stays {D = D} (pure (returned true))
  Stays-true = record { at = λ t t' e. cc }

  Stays-undefined : Stays {D = D} (pure undefined)
  Stays-undefined = record { at = λ t t' e. cc }

module _ {D A : Type 0} where
  Stays-bind :
      (m : Exec (Terminal D) A) (f : A → Exec (Terminal D) Outcome)
      → ((a : A) → Stays (f a))
      → Stays (m >>= f)
  Stays-bind m f sf = record {
    at = λ t t' e.
        let (a, s, _, rest) = bind-inv m f t (returned false, t') e in (sf a).at s t' rest;
  }

module _ {D A : Type 0} (send : Exec (TestStandComm D) A) (lines : A → List Printed) where
  Stays-reporting : Stays (reporting send lines)
  Stays-reporting =
      Stays-bind (on_link send) _
        (λ reply. Stays-bind (print_all (lines reply)) _ (λ _. Stays-true))

module _ {D : Type 0} (unread : List (List ℕ)) where
  pub Unread-print : (line : Printed) → Keeps (Unread {D = D} unread) (print line)
  Unread-print line = record { at = λ t h. h }

  pub Unread-print_all : (lines : List Printed) → Keeps (Unread {D = D} unread) (print_all lines)
  Unread-print_all [] = Keeps-pure tt
  Unread-print_all (line ∷ lines) =
      Keeps-bind (λ _. print_all lines) (λ _. Unread-print_all lines) (print line)
        (Unread-print line)

module _ {D A : Type 0} (unread : List (List ℕ)) where
  After-on_link :
      (r : Option (A × TestStandComm D)) (t : Terminal D)
      → Unread unread t
      → After (Unread unread) (elim r as (λ _. Option (A × Terminal D)) [
        | none ↦ none
        | some (a, c) ↦ some (a, record t { comm = c })
      ])
  After-on_link none t h = tt
  After-on_link (some (a, c)) t h = h

  pub Unread-on_link : (m : Exec (TestStandComm D) A) → Keeps (Unread unread) (on_link m)
  Unread-on_link m = record { at = λ t h. After-on_link (m t.comm) t h }

  pub Unread-reporting :
      (send : Exec (TestStandComm D) A) (lines : A → List Printed)
      → Keeps (Unread unread) (reporting send lines)
  Unread-reporting send lines =
      Keeps-bind _
        (λ reply.
          Keeps-bind _ (λ _. Keeps-pure _) (print_all (lines reply))
            (Unread-print_all unread (lines reply)))
        (on_link send) (Unread-on_link send)

module _ {D : Type 0} where
  Stays-if :
      (b : Bool) (m n : Exec (Terminal D) Outcome) → Stays m → Stays n → Stays (if b then m else n)
  Stays-if true m n sm sn = sm
  Stays-if false m n sm sn = sn

ruleset stay_rules = (Stays-true, Stays-undefined, Stays-bind, Stays-reporting, Stays-if)

module _ {D : Type 0} where
  Stays-show_command : (row : Option CommandId) → Stays {D = D} (show_command row)
  unfolding show_command
  Stays-show_command none = search stay_rules
  Stays-show_command (some id) = search stay_rules

  Stays-help : (iss : StringStream) → Stays {D = D} (help iss)
  unfolding help help_specific
  Stays-help iss = search (stay_rules, Stays-show_command)

module _ {D : Type 0} (unread : List (List ℕ)) where
  pub Unread-print_cmd_usage : (id : CommandId) → Keeps (Unread {D = D} unread) (print_cmd_usage id)
  unfolding print_cmd_usage
  Unread-print_cmd_usage id = Unread-print unread _

pub ruleset unread_rules = (
  Keeps-pure, Keeps-bind, Keeps-if, Unread-print, Unread-print_all, Unread-on_link,
  Unread-reporting, Unread-print_cmd_usage,
)

module _ {D : Type 0} (unread : List (List ℕ)) where
  Unread-show_command : (row : Option CommandId) → Keeps (Unread {D = D} unread) (show_command row)
  unfolding show_command
  Unread-show_command none = search unread_rules
  Unread-show_command (some id) = search unread_rules

  Unread-help : (iss : StringStream) → Keeps (Unread {D = D} unread) (help iss)
  unfolding help help_specific help_general
  Unread-help iss = search (unread_rules, Unread-show_command)

module _ {D : Type 0} (dev : SerialDevice D) (rounds bytes polls uninit : ℕ) where
  Stays-obey_move : (cmd : Option MoveCommand) → Stays (obey_move dev rounds bytes polls uninit cmd)
  unfolding obey_move send_move
  Stays-obey_move none = search stay_rules
  Stays-obey_move (some cmd) = search stay_rules

  -- All commands but `exit` and `reset` let the loop go on.
  pub handler-Stays :
      (id : CommandId) (iss : StringStream)
      → Stays (handler dev rounds bytes polls uninit id iss)
        ⊎ ((id ≡ cmd_id_exit) ⊎ (id ≡ cmd_id_reset))
  unfolding handler basic_cmd move get_status get_position get_temp get_axis_state link_check
  handler-Stays cmd_id_ping iss = inl (search stay_rules)
  handler-Stays cmd_id_get_status iss = inl (search stay_rules)
  handler-Stays cmd_id_home iss = inl (search stay_rules)
  handler-Stays cmd_id_move iss = inl (Stays-obey_move (read_move uninit iss))
  handler-Stays cmd_id_stop iss = inl (search stay_rules)
  handler-Stays cmd_id_get_position iss = inl (search stay_rules)
  handler-Stays cmd_id_get_temp iss = inl (search stay_rules)
  handler-Stays cmd_id_get_axis_state iss = inl (search stay_rules)
  handler-Stays cmd_id_link_check iss = inl (search stay_rules)
  handler-Stays cmd_id_help iss = inl (Stays-help iss)
  handler-Stays cmd_id_reset iss = inr (inr refl)
  handler-Stays cmd_id_exit iss = inr (inl refl)

module _ {D : Type 0} (dev : SerialDevice D) (rounds bytes polls uninit : ℕ)
    (unread : List (List ℕ)) where
  Unread-obey_move :
      (cmd : Option MoveCommand)
      → Keeps (Unread unread) (obey_move dev rounds bytes polls uninit cmd)
  unfolding obey_move send_move
  Unread-obey_move none = search unread_rules
  Unread-obey_move (some cmd) = search unread_rules

  Unread-connect_to_arduino :
      Keeps (Unread unread) (connect_to_arduino dev rounds bytes polls uninit)
  unfolding connect_to_arduino
  Unread-connect_to_arduino = search unread_rules depth 12

  -- No command takes a line from stdin.
  pub handler-Unread :
      (id : CommandId) (iss : StringStream)
      → Keeps (Unread unread) (handler dev rounds bytes polls uninit id iss)
  unfolding handler basic_cmd move get_status get_position get_temp get_axis_state link_check reset
      exit
  handler-Unread cmd_id_ping iss = search unread_rules
  handler-Unread cmd_id_get_status iss = search unread_rules
  handler-Unread cmd_id_home iss = search unread_rules
  handler-Unread cmd_id_move iss = Unread-obey_move (read_move uninit iss)
  handler-Unread cmd_id_stop iss = search unread_rules
  handler-Unread cmd_id_get_position iss = search unread_rules
  handler-Unread cmd_id_get_temp iss = search unread_rules
  handler-Unread cmd_id_get_axis_state iss = search unread_rules
  handler-Unread cmd_id_link_check iss = search unread_rules
  handler-Unread cmd_id_reset iss = search (unread_rules, Unread-connect_to_arduino)
  handler-Unread cmd_id_help iss = Unread-help unread iss
  handler-Unread cmd_id_exit iss = search unread_rules
