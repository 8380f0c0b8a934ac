-- ===== src/Terminal.antt =====
-- MessageTerminal/MessageTerminal.cxx: the interactive program that sends one message per line that is
-- typed. This file has its data; the child modules have the string stream it reads a line with, the
-- functions behind the commands, and the program.
pub mod Stream
pub mod Moves
pub mod Commands
pub mod Replies
pub mod Handlers
pub mod Program
pub mod Lookup
pub mod Effects
pub mod Sessions
pub mod Waiting
pub mod Numbers
pub mod MoveLines
pub mod Answers
use Prim.Native.Char.{code}
use Prim.Native.String.{String}
use mpmt_test_stand.Prelude.{
  ℕ, Bool, true, false, Option, none, some, List, [], ◌∷◌, ◌==◌, if◌then◌else◌,
}
use mpmt_test_stand.Serial.{SerialResult}
use mpmt_test_stand.Serial.Exec.{TestStandComm, Exec, modify}

-- The bytes of a literal. A std::string is a list of bytes.
abbrev pub codes : String → List ℕ
codes String.[] = []
codes (String.◌∷◌ c s) = code c ∷ codes s

-- operator== of std::string
unfoldable pub same_text : List ℕ → List ℕ → Bool
same_text [] [] = true
same_text (x ∷ xs) (y ∷ ys) = let rest = same_text xs ys in if x == y then rest else false
same_text _ _ = false

pub data CommandId : Type 0 where
  cmd_id_ping cmd_id_get_status cmd_id_home cmd_id_move cmd_id_stop : CommandId
  cmd_id_get_position cmd_id_get_temp cmd_id_get_axis_state : CommandId
  cmd_id_link_check cmd_id_reset cmd_id_help cmd_id_exit : CommandId

-- An argument of printf. A temperature is the scaled integer that its double was made from.
pub data Arg : Type 0 where
  string : String → Arg
  text : List ℕ → Arg
  int32 : ℕ → Arg
  bool : ℕ → Arg
  result : SerialResult → Arg
  temperature : ℕ → Arg

-- A call of printf or puts, or what one statement puts to cout.
pub data Printed : Type 0 where
  printf : String → List Arg → Printed
  puts : String → Printed

-- The globals, with the lines that stdin still has and what was printed, the newest first.
pub record Terminal (D : Type 0) : Type 0 where
  pub comm : TestStandComm D
  pub stdin : List (List ℕ)
  pub printed : List Printed

-- What a call of a cmd_handler comes to: its result, or a null pointer was dereferenced.
pub data Outcome : Type 0 where
  returned : Bool → Outcome
  undefined : Outcome

module _ {D : Type 0} where
  abbrev pub print : Printed → Exec (Terminal D) (Unit {0})
  print line = modify (λ t. record t { printed = line ∷ t.printed })

  -- A call on `comm` or on its device.
  abbrev pub on_link : {A : Type 0} → Exec (TestStandComm D) A → Exec (Terminal D) A
  on_link m t = elim (m t.comm) [ none ↦ none | some (a, c) ↦ some (a, record t { comm = c }) ]
