-- ===== src/Terminal/Sessions.antt =====
-- How the terminal's loop ends.
use mpmt_test_stand.Prelude.{
  ℕ, zero, suc, ◌≡◌, ◌⊎◌, inl, inr, refl, sym, ap, ◌∙◌, true, false, Option, none, some, List, [],
  ◌∷◌, ◌++◌, Option-cases,
}
use mpmt_test_stand.Serial.Device.{SerialDevice}
use mpmt_test_stand.Serial.Exec.{bind-inv, bind-some}
use mpmt_test_stand.Serial.Exec.Keeps.{Keeps, Keeps-run, Keeps-pure}
use mpmt_test_stand.Terminal.{
  cmd_id_exit, cmd_id_reset, puts, Terminal, Outcome, returned, undefined,
}
use mpmt_test_stand.Terminal.Stream.{of_line, read_word}
use mpmt_test_stand.Terminal.Commands.{command_name, commands, find_command}
use mpmt_test_stand.Terminal.Program.{get_cmd_handler, run_line, unless_empty, turn, go_on, session}
use mpmt_test_stand.Terminal.Lookup.{find_command_lem}
use mpmt_test_stand.Terminal.Effects.{prompted, Unread, handler-Stays, handler-Unread, unread_rules}

abbrev first_word : List ℕ → List ℕ
first_word line = (read_word (of_line line) []).0

-- The line is one of the two commands that can end the loop.
abbrev pub IsFinal : List ℕ → Type 0
IsFinal line =
    (first_word line ≡ command_name cmd_id_exit) ⊎ (first_word line ≡ command_name cmd_id_reset)

none_and_some : {A X : Type 0} {a : A} (o : Option A) → o ≡ none → o ≡ some a → X
none_and_some none e e' = cc
none_and_some (some a) e e' = cc

module _ {D : Type 0} (dev : SerialDevice D) (rounds bytes polls uninit : ℕ) where
  run_line-Unread :
      (unread : List (List ℕ)) (line : List ℕ)
      → Keeps (Unread unread) (run_line dev rounds bytes polls uninit line)
  unfolding run_line get_cmd_handler
  run_line-Unread unread line = elim (Option-cases (find_command (first_word line) commands)) [
    | inl unknown ↦ rw unknown (search unread_rules)
    | inr (id, found) ↦ rw found (handler-Unread dev rounds bytes polls uninit unread id _)
  ]

  run_line-IsFinal :
      (line : List ℕ) (t t' : Terminal D)
      → run_line dev rounds bytes polls uninit line t ≡ some (returned false, t')
      → IsFinal line
  unfolding run_line get_cmd_handler
  run_line-IsFinal line t t' e = elim (Option-cases (find_command (first_word line) commands)) [
    | inl unknown ↦ (let run = rw unknown at e in cc)
    | inr (id, found) ↦
        (let run = rw found at e in
          let named = (find_command_lem (first_word line) id).0 found in
          elim (handler-Stays dev rounds bytes polls uninit id _) [
            | inl stays ↦ elim (stays.at t t' run) [ ]
            | inr (inl is_exit) ↦ inl (named ∙ ap command_name is_exit)
            | inr (inr is_reset) ↦ inr (named ∙ ap command_name is_reset)
          ])
  ]

  -- A turn takes one line, if there is one, and ends the loop only for a final line.
  turn-nothing :
      (t : Terminal D)
      → t.stdin ≡ []
      → turn dev rounds bytes polls uninit t
        ≡ some (returned true, record t { stdin = []; printed = puts "> " ∷ t.printed })
  unfolding turn
  turn-nothing t e = rw e refl

  unless_empty-Unread :
      (unread : List (List ℕ)) (line : List ℕ)
      → Keeps (Unread unread) (unless_empty dev rounds bytes polls uninit line)
  unless_empty-Unread unread [] = Keeps-pure (returned true)
  unless_empty-Unread unread (c ∷ line) = run_line-Unread unread (c ∷ line)

  unless_empty-IsFinal :
      (line : List ℕ) (t t' : Terminal D)
      → unless_empty dev rounds bytes polls uninit line t ≡ some (returned false, t')
      → IsFinal line
  unless_empty-IsFinal [] t t' e = cc
  unless_empty-IsFinal (c ∷ line) t t' e = run_line-IsFinal (c ∷ line) t t' e

  turn_line :
      (line : List ℕ) (lines : List (List ℕ)) (t : Terminal D)
      → t.stdin ≡ line ∷ lines
      → turn dev rounds bytes polls uninit t
        ≡ unless_empty dev rounds bytes polls uninit line (prompted t lines)
  unfolding turn
  turn_line line lines t e = rw e refl

  turn-Unread :
      (line : List ℕ) (lines : List (List ℕ)) (t t' : Terminal D) (o : Outcome)
      → t.stdin ≡ line ∷ lines
      → turn dev rounds bytes polls uninit t ≡ some (o, t')
      → t'.stdin ≡ lines
  turn-Unread line lines t t' o e run =
      Keeps-run (unless_empty dev rounds bytes polls uninit line) (prompted t lines) t' o
        (unless_empty-Unread lines line) refl (sym (turn_line line lines t e) ∙ run)

  -- What the terminal has read when its loop ends.
  abbrev pub Ended : List (List ℕ) → Terminal D → Type 0
  Ended stdin t' =
      (before : List (List ℕ)) × (last : List ℕ) × (stdin ≡ before ++ (last ∷ t'.stdin))
      × IsFinal last

  -- Once the input is at its end, the loop does not end, however many turns it is given.
  pub session-end_of_input :
      (turns : ℕ) (t : Terminal D)
      → t.stdin ≡ []
      → session dev rounds bytes polls uninit turns t ≡ none
  unfolding session
  session-end_of_input zero t e = refl
  session-end_of_input (suc turns) t e =
      bind-some (turn dev rounds bytes polls uninit)
        (go_on (session dev rounds bytes polls uninit turns)) {s = t} (turn-nothing t e)
      ∙ session-end_of_input turns (prompted t []) refl

  go_on-Ended :
      (turns : ℕ) (o : Outcome) (line : List ℕ) (lines : List (List ℕ)) (t1 t' : Terminal D)
      → t1.stdin ≡ lines
      → (o ≡ returned false → IsFinal line)
      → (session dev rounds bytes polls uninit turns t1 ≡ some (returned false, t')
          → Ended lines t')
      → go_on (session dev rounds bytes polls uninit turns) o t1 ≡ some (returned false, t')
      → Ended (line ∷ lines) t'
  go_on-Ended turns (returned true) line lines t1 t' unread final rest e =
      let (before, last, split, is_final) = rest e in
      (line ∷ before, last, ap (◌∷◌ line) split, is_final)
  go_on-Ended turns (returned false) line lines t1 t' unread final rest e =
      let same : t1 ≡ t' = cc in
      ([], line, ap (◌∷◌ line) (sym unread ∙ ap (λ t. t.stdin) same), final refl)
  go_on-Ended turns undefined line lines t1 t' unread final rest e = cc

  session_next :
      (turns : ℕ) (line : List ℕ) (lines : List (List ℕ)) (t t' : Terminal D)
      → t.stdin ≡ line ∷ lines
      → ((t1 : Terminal D)
          → t1.stdin ≡ lines
          → session dev rounds bytes polls uninit turns t1 ≡ some (returned false, t')
          → Ended lines t')
      → session dev rounds bytes polls uninit (suc turns) t ≡ some (returned false, t')
      → Ended (line ∷ lines) t'
  unfolding session
  session_next turns line lines t t' e rest run =
      let more = go_on (session dev rounds bytes polls uninit turns) in
      let (o, t1, taken, then_run) =
        bind-inv (turn dev rounds bytes polls uninit) more t (returned false, t') run in
      let unread = turn-Unread line lines t t1 o e taken in
      go_on-Ended turns o line lines t1 t' unread
        (λ ends.
          unless_empty-IsFinal line (prompted t lines) t1
            (sym (turn_line line lines t e) ∙ taken ∙ ap (λ r. some (r, t1)) ends))
        (rest t1 unread) then_run

  no_turns : (t : Terminal D) → session dev rounds bytes polls uninit zero t ≡ none
  unfolding session
  no_turns t = refl

  session_lines :
      (turns : ℕ) (stdin : List (List ℕ)) (t t' : Terminal D)
      → t.stdin ≡ stdin
      → session dev rounds bytes polls uninit turns t ≡ some (returned false, t')
      → Ended stdin t'
  session_lines zero stdin t t' e run = none_and_some _ (no_turns t) run
  session_lines turns [] t t' e run = none_and_some _ (session-end_of_input turns t e) run
  session_lines (suc turns) (line ∷ lines) t t' e run =
      session_next turns line lines t t' e
        (λ t1 unread again. session_lines turns lines t1 t' unread again) run

  -- When the loop ends, the last line that was read begins with the word `exit` or `reset`, and
  -- what is left of the input is what stood behind that line.
  pub session-Ended :
      (turns : ℕ) (t t' : Terminal D)
      → session dev rounds bytes polls uninit turns t ≡ some (returned false, t')
      → Ended t.stdin t'
  session-Ended turns t t' e = session_lines turns t.stdin t t' refl e
