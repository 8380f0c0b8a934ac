-- ===== src/Terminal/Stream.antt =====
-- std::istringstream, as far as the terminal uses it: `good` and the two operators `>>`, in the C
-- locale. A read that finds the stream not good, or nothing but white space, leaves its variable.
use mpmt_test_stand.Prelude.{
  ℕ, ◌+◌, ◌-◌, ◌*◌, Bool, true, false, List, [], ◌∷◌, ◌==◌, ◌&&◌, ◌||◌, not, leb, ltb,
  if◌then◌else◌, sub32,
}

-- The characters that are left, eofbit and failbit.
pub record StringStream : Type 0 where
  pub rest : List ℕ
  pub eof : Bool
  pub fail : Bool

abbrev pub of_line : List ℕ → StringStream
of_line line = record { rest = line; eof = false; fail = false }

unfoldable pub good : StringStream → Bool
good s = not s.eof && not s.fail

abbrev pub is_space : ℕ → Bool
is_space c = c == b' ' || (leb 9 c && leb c 13)

abbrev pub is_digit : ℕ → Bool
is_digit c = leb b'0' c && leb c b'9'

unfoldable pub skip_space : List ℕ → List ℕ
skip_space [] = []
skip_space (c ∷ s) = let rest = skip_space s in if is_space c then rest else c ∷ s

-- The longest front whose characters pass, and the rest.
unfoldable pub span : (ℕ → Bool) → List ℕ → List ℕ × List ℕ
span p [] = ([], [])
span p (c ∷ s) = let (front, rest) = span p s in if p c then (c ∷ front, rest) else ([], c ∷ s)

abbrev pub is_end : List ℕ → Bool
is_end [] = true
is_end (c ∷ s) = false

-- What is left after a read that stopped before `rest`.
abbrev pub after_read : List ℕ → Bool → StringStream
after_read rest failed = record { rest = rest; eof = is_end rest; fail = failed }

-- The sentry: whether there is something to read, and the stream at its first character.
unfoldable pub sentry : StringStream → Bool × StringStream
unfolding good skip_space
sentry s =
    if not (good s)
    then (false, record s { fail = true })
    else (let rest = skip_space s.rest in
        if is_end rest
        then (false, record { rest = []; eof = true; fail = true })
        else (true, record s { rest = rest }))

-- `iss >> word`
unfoldable pub read_word : StringStream → List ℕ → List ℕ × StringStream
unfolding sentry span
read_word s word =
    let (found, s') = sentry s in
    let (front, rest) = span (λ c. not (is_space c)) s'.rest in
    if not found then (word, s') else (front, after_read rest false)

abbrev pub uint32_max : ℕ
uint32_max = 4294967295

-- The number that digits make, after those whose number is `n`.
unfoldable pub decimal : ℕ → List ℕ → ℕ
decimal n [] = n
decimal n (c ∷ s) = decimal (n * 10 + (c - b'0')) s

-- What num_get makes of a sign and the digits behind it, and whether it reports a failure.
unfoldable pub unsigned_of : Bool → List ℕ → ℕ × Bool
unfolding decimal
unsigned_of negative [] = (0, true)
unsigned_of negative (c ∷ digits) =
    let n = decimal 0 (c ∷ digits) in
    if ltb uint32_max n
    then (uint32_max, true)
    else if negative
    then (sub32 0 n, false)
    else (n, false)

-- A sign, if there is one, and what follows it.
unfoldable pub split_sign : List ℕ → Bool × List ℕ
split_sign [] = (false, [])
split_sign (c ∷ s) =
    if c == b'-' then (true, s) else if c == b'+' then (false, s) else (false, c ∷ s)

-- `iss >> n` for a uint32_t
unfoldable pub read_uint32 : StringStream → ℕ → ℕ × StringStream
unfolding sentry span split_sign unsigned_of
read_uint32 s n =
    let (found, s') = sentry s in
    let (negative, unsigned) = split_sign s'.rest in
    let (digits, rest) = span is_digit unsigned in
    let (value, failed) = unsigned_of negative digits in
    if not found then (n, s') else (value, after_read rest failed)
