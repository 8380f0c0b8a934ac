-- ===== src/Terminal/Program.antt =====
-- The terminal's program: `main`, a turn of its loop, and the loop on fuel.
use mpmt_test_stand.Prelude.{
  ℕ, zero, suc, true, false, Option, none, some, List, [], ◌∷◌, ◌==◌, not, if◌then◌else◌,
}
use mpmt_test_stand.Serial.Device.{SerialDevice}
use mpmt_test_stand.Serial.Exec.{Exec, pure, modify, out_of_fuel, ◌>>=◌, ◌>>◌}
use mpmt_test_stand.Terminal.{
  puts, printf, text, Terminal, Outcome, returned, undefined, print, on_link,
}
use mpmt_test_stand.Terminal.Stream.{of_line, read_word}
use mpmt_test_stand.Terminal.Commands.{commands, find_command}
use mpmt_test_stand.Terminal.Handlers.{CmdHandler, handler, connect_to_arduino}

-- How the program ends.
pub data Ending : Type 0 where
  exit_code : ℕ → Ending
  crashed : Ending

-- getline(cin, line) for a new `line`, which stays empty where stdin has no more.
abbrev pub next_line : List (List ℕ) → List ℕ × List (List ℕ)
next_line [] = ([], [])
next_line (line ∷ lines) = (line, lines)

abbrev pub getline : {D : Type 0} → Exec (Terminal D) (List ℕ)
getline t = let (line, lines) = next_line t.stdin in some (line, record t { stdin = lines })

module _ {D : Type 0} where
  abbrev pub go_on : Exec (Terminal D) Outcome → Outcome → Exec (Terminal D) Outcome
  go_on more (returned true) = more
  go_on more (returned false) = pure (returned false)
  go_on more undefined = pure undefined

module _ {D : Type 0} (dev : SerialDevice D) (rounds bytes polls uninit : ℕ) where
  -- `none` is nullptr
  unfoldable pub get_cmd_handler : List ℕ → Option (CmdHandler D)
  unfolding find_command handler
  get_cmd_handler cmd_name = elim (find_command cmd_name commands) [
    | none ↦ none
    | some id ↦ some (handler dev rounds bytes polls uninit id)
  ]

  -- A line that is not empty.
  unfoldable pub run_line : List ℕ → Exec (Terminal D) Outcome
  unfolding read_word get_cmd_handler
  run_line line =
      let (word, iss) = read_word (of_line line) [] in
      elim (get_cmd_handler word) [
        | none ↦ (print (puts "Invalid command") >> pure (returned true))
        | some run ↦ run iss
      ]

  abbrev pub unless_empty : List ℕ → Exec (Terminal D) Outcome
  unless_empty [] = pure (returned true)
  unless_empty (c ∷ line) = run_line (c ∷ line)

  -- The body of the loop; the handler's result is whether to go on.
  unfoldable pub turn : Exec (Terminal D) Outcome
  unfolding run_line
  turn = print (puts "> ") >> (getline >>= unless_empty)

  -- `while (!exit)`
  unfoldable pub session : ℕ → Exec (Terminal D) Outcome
  unfolding turn
  session zero = out_of_fuel
  session (suc turns) = let more = session turns in turn >>= go_on more

  abbrev finish : Outcome → Exec (Terminal D) Ending
  finish (returned _) =
      on_link (modify (λ c. record c { device = dev.ser_disconnect c.device }))
      >> pure (exit_code 0)
  finish undefined = pure crashed

  -- `set_device_file` is that of the object `device`.
  unfoldable pub main : (List ℕ → D → D) → ℕ → List ℕ → List ℕ → ℕ → Exec (Terminal D) Ending
  unfolding session connect_to_arduino
  main set_device_file argc program path turns =
      if not (argc == 2)
      then (print (
            printf "\nusage: %s <serial device file>\n\nexample:\n    %s /dev/ttyS3\n\n"
              (text program ∷ text program ∷ []))
          >> pure (exit_code 0))
      else (on_link (modify (λ c. record c { device = set_device_file path c.device }))
          >> (connect_to_arduino dev rounds bytes polls uninit >>= λ connected.
              if not connected
              then pure (exit_code 1)
              else (print (puts "Type 'help' to see the list of available commands.")
                  >> print (puts "Type 'exit' to exit.")
                  >> (session turns >>= finish))))
