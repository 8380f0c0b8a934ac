-- ===== src/Terminal/Moves.antt =====
-- How the terminal's `move` reads its line.
use mpmt_test_stand.Prelude.{ℕ, Option, none, some, List, [], if◌then◌else◌}
use mpmt_test_stand.Shared.{
  AxisId, axis_x, axis_y, AxisDirection, axis_dir_positive, axis_dir_negative,
}
use mpmt_test_stand.Terminal.{codes, same_text}
use mpmt_test_stand.Terminal.Stream.{StringStream, good, read_word, read_uint32}

unfoldable pub axis_word : List ℕ → Option AxisId
unfolding same_text
axis_word word =
    if same_text word (codes "x")
    then some axis_x
    else if same_text word (codes "y")
    then some axis_y
    else none

unfoldable pub direction_word : List ℕ → Option AxisDirection
unfolding same_text
direction_word word =
    if same_text word (codes "pos")
    then some axis_dir_positive
    else if same_text word (codes "neg")
    then some axis_dir_negative
    else none

-- The arguments of comm.move.
pub record MoveCommand : Type 0 where
  pub axis : AxisId
  pub dir : AxisDirection
  pub vel_hold : ℕ
  pub dist : ℕ

-- `if (!iss.good()) break;`
abbrev if_good : {A : Type 0} → StringStream → Option A → Option A
if_good iss next = if good iss then next else none

-- vel_hold, dist: `uninit` is what the uninitialised variables hold.
unfoldable pub read_numbers : ℕ → AxisId → AxisDirection → StringStream → Option MoveCommand
unfolding good read_uint32
read_numbers uninit axis dir iss =
    let (vel_hold, iss') = read_uint32 iss uninit in
    let (dist, _) = read_uint32 iss' uninit in
    if_good iss
      (if_good iss' (some (record { axis = axis; dir = dir; vel_hold = vel_hold; dist = dist })))

-- dir, read into the variable that still has the word of the axis.
unfoldable pub read_direction : ℕ → List ℕ → AxisId → StringStream → Option MoveCommand
unfolding good read_word direction_word read_numbers
read_direction uninit word axis iss =
    let (word', iss') = read_word iss word in
    if_good iss
      (elim (direction_word word') [ none ↦ none | some dir ↦ read_numbers uninit axis dir iss' ])

-- The do-while of `move` down to the call of comm.move; `none` is a break.
unfoldable pub read_move : ℕ → StringStream → Option MoveCommand
unfolding good read_word axis_word read_direction
read_move uninit iss =
    let (word, iss') = read_word iss [] in
    if_good iss
      (elim (axis_word word) [ none ↦ none | some axis ↦ read_direction uninit word axis iss' ])
