-- ===== src/Terminal/Lookup.antt =====
-- The command table: names find their own rows.
use mpmt_test_stand.Prelude.{
  ℕ, ◌≡◌, ◌↔◌, refl, sym, ap, ◌∙◌, true, some, List, [], ◌∷◌, arith, Bool-cases, inl, inr,
}
use mpmt_test_stand.Terminal.{
  same_text, CommandId, cmd_id_ping, cmd_id_get_status, cmd_id_home, cmd_id_move, cmd_id_stop,
  cmd_id_get_position, cmd_id_get_temp, cmd_id_get_axis_state, cmd_id_link_check, cmd_id_reset,
  cmd_id_help, cmd_id_exit,
}
use mpmt_test_stand.Terminal.Commands.{commands, command_name, find_command}

pub same_text-true : (xs ys : List ℕ) → same_text xs ys ≡ true → xs ≡ ys
unfolding same_text
same_text-true [] [] e = refl
same_text-true [] (y ∷ ys) e = cc
same_text-true (x ∷ xs) [] e = cc
same_text-true (x ∷ xs) (y ∷ ys) e = ground (arith, same_text-true xs ys)

find_command-name :
    (word : List ℕ) (ids : List CommandId) (id : CommandId)
    → find_command word ids ≡ some id
    → word ≡ command_name id
unfolding find_command
find_command-name word [] id e = cc
find_command-name word (row ∷ ids) id e = elim (Bool-cases (same_text (command_name row) word)) [
  | inl same ↦
      (let first : row ≡ id = (let found = rw same at e in cc) in
        sym (same_text-true (command_name row) word same) ∙ ap command_name first)
  | inr other ↦ find_command-name word ids id (rw other at e)
]

row_found : (id : CommandId) → find_command (command_name id) commands ≡ some id
unfolding find_command
row_found cmd_id_ping = refl
row_found cmd_id_get_status = refl
row_found cmd_id_home = refl
row_found cmd_id_move = refl
row_found cmd_id_stop = refl
row_found cmd_id_get_position = refl
row_found cmd_id_get_temp = refl
row_found cmd_id_get_axis_state = refl
row_found cmd_id_link_check = refl
row_found cmd_id_reset = refl
row_found cmd_id_help = refl
row_found cmd_id_exit = refl

-- A word finds the row of a command exactly if it is the name of that command.
pub find_command_lem :
    (word : List ℕ) (id : CommandId)
    → (find_command word commands ≡ some id) ↔ (word ≡ command_name id)
find_command_lem word id = (
  find_command-name word commands id,
  λ same. ap (λ w. find_command w commands) same ∙ row_found id,
)
