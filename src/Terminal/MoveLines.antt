-- ===== src/Terminal/MoveLines.antt =====
-- What a `move` that is typed makes the terminal send.
use mpmt_test_stand.Prelude.{ℕ, ◌≤◌, ◌≡◌, refl, ◌∙◌, Bool, true, false, some, List, [], ◌∷◌, ◌++◌}
use mpmt_test_stand.Shared.{
  AxisId, axis_x, axis_y, AxisDirection, axis_dir_positive, axis_dir_negative,
}
use mpmt_test_stand.Serial.Device.{SerialDevice}
use mpmt_test_stand.Terminal.{codes, Terminal}
use mpmt_test_stand.Terminal.Stream.{is_digit, uint32_max, read_uint32}
use mpmt_test_stand.Terminal.Moves.{MoveCommand, read_numbers, read_move}
use mpmt_test_stand.Terminal.Handlers.{send_move, move}
use mpmt_test_stand.Terminal.Program.{run_line, turn}
use mpmt_test_stand.Terminal.Effects.{prompted}
use mpmt_test_stand.Terminal.Numbers.{numeral, stops, at_blank, read_uint32-numeral}

axis_text : AxisId → List ℕ
axis_text axis_x = codes "x"
axis_text axis_y = codes "y"

direction_text : Bool → List ℕ
direction_text false = codes "pos"
direction_text true = codes "neg"

abbrev pub direction : Bool → AxisDirection
direction false = axis_dir_positive
direction true = axis_dir_negative

-- A line for `move` up to the numbers, with one blank between two words.
unfoldable pub move_line : AxisId → Bool → List ℕ → List ℕ
unfolding axis_text direction_text
move_line axis negative numbers =
    codes "move"
    ++ (b' ' ∷ (axis_text axis ++ (b' ' ∷ (direction_text negative ++ (b' ' ∷ numbers)))))

abbrev pub command : AxisId → Bool → ℕ → ℕ → MoveCommand
command axis negative vel_hold dist = record {
  axis = axis;
  dir = direction negative;
  vel_hold = vel_hold;
  dist = dist;
}

read_numbers_lem :
    (uninit : ℕ) (axis : AxisId) (negative : Bool) (vel_hold dist : ℕ) (tail : List ℕ)
    → vel_hold ≤ uint32_max
    → dist ≤ uint32_max
    → stops is_digit tail ≡ true
    → read_numbers uninit axis
        (direction negative)
        (at_blank (numeral vel_hold ++ (b' ' ∷ (numeral dist ++ tail))))
      ≡ some (command axis negative vel_hold dist)
unfolding read_numbers
read_numbers_lem uninit axis negative vel_hold dist tail hv hd stop =
    let more = numeral dist ++ tail in
    rw (read_uint32-numeral vel_hold (b' ' ∷ more) uninit hv refl)
      (rw (read_uint32-numeral dist tail uninit hd stop) refl)

-- A blank behind the velocity is no distance.
read_numbers-blank :
    (uninit : ℕ) (axis : AxisId) (negative : Bool) (vel_hold : ℕ)
    → vel_hold ≤ uint32_max
    → read_numbers uninit axis (direction negative) (at_blank (numeral vel_hold ++ b' ' ∷ []))
      ≡ some (command axis negative vel_hold uninit)
unfolding read_numbers read_uint32
read_numbers-blank uninit axis negative vel_hold hv =
    rw (read_uint32-numeral vel_hold (b' ' ∷ []) uninit hv refl) refl

module _ {D : Type 0} (dev : SerialDevice D) (rounds bytes polls uninit : ℕ) where
  run_line-move :
      (axis : AxisId) (negative : Bool) (numbers : List ℕ) (cmd : MoveCommand) (t : Terminal D)
      → read_numbers uninit axis (direction negative) (at_blank numbers) ≡ some cmd
      → run_line dev rounds bytes polls uninit (move_line axis negative numbers) t
        ≡ send_move dev rounds bytes polls uninit cmd t
  unfolding run_line move read_move move_line
  run_line-move axis_x false numbers cmd t e = rw e refl
  run_line-move axis_x true numbers cmd t e = rw e refl
  run_line-move axis_y false numbers cmd t e = rw e refl
  run_line-move axis_y true numbers cmd t e = rw e refl

  turn-line :
      (axis : AxisId) (negative : Bool) (numbers : List ℕ) (lines : List (List ℕ)) (t : Terminal D)
      → t.stdin ≡ move_line axis negative numbers ∷ lines
      → turn dev rounds bytes polls uninit t
        ≡ run_line dev rounds bytes polls uninit
            (move_line axis negative numbers)
            (prompted t lines)
  unfolding turn move_line
  turn-line axis negative numbers lines t e = rw e refl

  -- Let the next line say `move`, one of the two axes, one of the two directions and two decimal
  -- numerals of uint32_t, each after one blank, and go on with nothing or with a character that is
  -- no digit. Then the turn of the loop sends exactly the move with that axis, direction, velocity
  -- and distance.
  pub turn-move_line :
      (axis : AxisId) (negative : Bool) (vel_hold dist : ℕ) (tail : List ℕ) (lines : List (List ℕ))
      (t : Terminal D)
      → vel_hold ≤ uint32_max
      → dist ≤ uint32_max
      → stops is_digit tail ≡ true
      → t.stdin
        ≡ move_line axis negative (numeral vel_hold ++ (b' ' ∷ (numeral dist ++ tail))) ∷ lines
      → turn dev rounds bytes polls uninit t
        ≡ send_move dev rounds bytes polls uninit
            (command axis negative vel_hold dist)
            (prompted t lines)
  turn-move_line axis negative vel_hold dist tail lines t hv hd stop e =
      let read = read_numbers_lem uninit axis negative vel_hold dist tail hv hd stop in
      turn-line axis negative _ lines t e ∙ run_line-move axis negative _ _ _ read

  -- Let the next line say `move`, one of the two axes, one of the two directions and one decimal
  -- numeral of uint32_t, each after one blank, and end with a blank. Then the turn of the loop
  -- sends the move with that axis, direction and velocity, by the distance that the uninitialised
  -- variable holds.
  pub turn-unread_distance :
      (axis : AxisId) (negative : Bool) (vel_hold : ℕ) (lines : List (List ℕ)) (t : Terminal D)
      → vel_hold ≤ uint32_max
      → t.stdin ≡ move_line axis negative (numeral vel_hold ++ b' ' ∷ []) ∷ lines
      → turn dev rounds bytes polls uninit t
        ≡ send_move dev rounds bytes polls uninit
            (command axis negative vel_hold uninit)
            (prompted t lines)
  turn-unread_distance axis negative vel_hold lines t hv e =
      let read = read_numbers-blank uninit axis negative vel_hold hv in
      turn-line axis negative _ lines t e ∙ run_line-move axis negative _ _ _ read
