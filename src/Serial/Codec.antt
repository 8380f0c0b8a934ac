-- ===== src/Serial/Codec.antt =====
-- Byte order (TestStandComm.h) and the layout of the packed structs on a little-endian machine.
use mpmt_test_stand.Prelude.{
  ℕ, ◌+◌, ◌*◌, ◌/◌, ◌%◌, ◌<◌, ◌≡◌, refl, Bool, true, false, List, [], ◌∷◌, ◌++◌, arith,
  if◌then◌else◌, get_or, length,
}
use mathlib.Core.List.{reverse, reverse_aux, reverse-reverse}

-- The bytes of a 32-bit word in memory, and the word that four bytes of a buffer hold.
abbrev pub word_bytes : ℕ → List ℕ
word_bytes w = w % 256 ∷ w / 256 % 256 ∷ w / 65536 % 256 ∷ w / 16777216 % 256 ∷ []

abbrev pub word_at : ℕ → List ℕ → ℕ
word_at i buf =
    get_or buf i 0
    + get_or buf (i + 1) 0 * 256
    + get_or buf (i + 2) 0 * 65536
    + get_or buf (i + 3) 0 * 16777216

unfoldable pub ntohl : ℕ → ℕ
ntohl val =
    (val % 256) * 16777216
    + (val / 256 % 256) * 65536
    + (val / 65536 % 256) * 256
    + val / 16777216 % 256

unfoldable pub htonl : ℕ → ℕ
htonl val =
    val / 16777216 % 256
    + (val / 65536 % 256) * 256
    + (val / 256 % 256) * 65536
    + (val % 256) * 16777216

-- A double is its eight bytes. `big_endian` is the test of `__FLOAT_WORD_ORDER__`.
unfoldable pub ntohd : Bool → List ℕ → List ℕ
ntohd big_endian val = if big_endian then val else reverse val

unfoldable pub htond : Bool → List ℕ → List ℕ
htond big_endian val = if big_endian then val else reverse val

-- The two conversions undo one another.
pub ntohl-htonl : (x : ℕ) → x < 4294967296 → ntohl (htonl x) ≡ x
unfolding ntohl htonl
ntohl-htonl x h = omega arith

pub htonl-lt : (x : ℕ) → htonl x < 4294967296
unfolding htonl
htonl-lt x = omega arith

pub word_at-word_bytes :
    (w : ℕ) (rest : List ℕ) → w < 4294967296 → word_at 0 (word_bytes w ++ rest) ≡ w
word_at-word_bytes w rest h = omega arith

-- On the wire a converted word is big-endian.
pub word_bytes-htonl :
    (x : ℕ)
    → x < 4294967296
    → word_bytes (htonl x) ≡ x / 16777216 ∷ x / 65536 % 256 ∷ x / 256 % 256 ∷ x % 256 ∷ []
unfolding htonl
word_bytes-htonl x h = ground arith

pub ntohd-htond : (big : Bool) (val : List ℕ) → ntohd big (htond big val) ≡ val
unfolding ntohd htond
ntohd-htond true val = refl
ntohd-htond false val = reverse-reverse val

length-reverse_aux : (xs ys : List ℕ) → length (reverse_aux xs ys) ≡ length xs + length ys
length-reverse_aux [] ys = omega arith
length-reverse_aux (x ∷ xs) ys = omega (arith, length-reverse_aux xs (x ∷ ys))

pub length-htond : (big : Bool) (val : List ℕ) → length (htond big val) ≡ length val
unfolding htond
length-htond true val = refl
length-htond false val = omega (arith, length-reverse_aux val [])
