-- ===== src/Terminal/Numbers.antt =====
-- Numbers on a line of the terminal: a decimal numeral that a stream finds is the number it reads.
use mpmt_test_stand.Prelude.{
  ℕ, zero, suc, ◌+◌, ◌-◌, ◌*◌, ◌/◌, ◌%◌, ◌≤◌, ◌<◌, ◌≡◌, refl, sym, ap, ◌∙◌, Bool, true, false, List,
  [], ◌∷◌, ◌++◌, arith, not, ltb, if◌then◌else◌, ◌&&◌, Bool-cases, inl, inr,
}
use mpmt_test_stand.Terminal.Stream.{
  StringStream, is_digit, skip_space, span, decimal, unsigned_of, split_sign, after_read,
  uint32_max, read_uint32,
}

-- The usual way to write a number, with at most one digit more than the fuel.
abbrev pub digits : ℕ → ℕ → List ℕ
digits zero n = (n % 10 + b'0') ∷ []
digits (suc fuel) n =
    let front = digits fuel (n / 10) in
    if ltb n 10 then (n + b'0') ∷ [] else front ++ (n % 10 + b'0') ∷ []

abbrev bound : ℕ → ℕ
bound zero = 10
bound (suc fuel) = 10 * bound fuel

-- Ten digits are enough for a uint32_t.
abbrev pub numeral : ℕ → List ℕ
numeral = digits 9

abbrev every : (ℕ → Bool) → List ℕ → Bool
every p [] = true
every p (c ∷ s) = p c && every p s

-- The characters that pass end before `s`.
abbrev pub stops : (ℕ → Bool) → List ℕ → Bool
stops p [] = true
stops p (c ∷ s) = not (p c)

decimal-end : (s : List ℕ) (n k : ℕ) → decimal n (s ++ (k + b'0') ∷ []) ≡ decimal n s * 10 + k
unfolding decimal
decimal-end [] n k = omega arith
decimal-end (c ∷ s) n k = decimal-end s (n * 10 + (c - b'0')) k

decimal-digits : (fuel n : ℕ) → n < bound fuel → decimal 0 (digits fuel n) ≡ n
unfolding decimal
decimal-digits zero n h = omega arith
decimal-digits (suc fuel) n h =
    let front = decimal-digits fuel (n / 10) (omega arith) in
    let last = decimal-end (digits fuel (n / 10)) 0 (n % 10) in ground arith

digit_char : (k : ℕ) → k < 10 → is_digit (k + b'0') ≡ true
digit_char k h = ground arith

every-append :
    (p : ℕ → Bool) (xs ys : List ℕ)
    → every p xs ≡ true
    → every p ys ≡ true
    → every p (xs ++ ys) ≡ true
every-append p [] ys hx hy = hy
every-append p (x ∷ xs) ys hx hy = ground (arith, every-append p xs ys)

digits_pass : (fuel n : ℕ) → every is_digit (digits fuel n) ≡ true
digits_pass zero n = ground (arith, digit_char (n % 10))
digits_pass (suc fuel) n = ground (
  arith,
  digits_pass fuel (n / 10),
  digit_char n,
  digit_char (n % 10),
  every-append is_digit (digits fuel (n / 10)) ((n % 10 + b'0') ∷ []),
)

span_lem :
    (p : ℕ → Bool) (xs ys : List ℕ)
    → every p xs ≡ true
    → stops p ys ≡ true
    → span p (xs ++ ys) ≡ (xs, ys)
unfolding span
span_lem p [] [] hx hy = refl
span_lem p [] (y ∷ ys) hx hy = ground arith
span_lem p (x ∷ xs) ys hx hy = ground (arith, span_lem p xs ys)

digits-cons : (fuel n : ℕ) → (c : ℕ) × (s : List ℕ) × (digits fuel n ≡ c ∷ s)
digits-cons zero n = (n % 10 + b'0', [], refl)
digits-cons (suc fuel) n = elim (Bool-cases (ltb n 10)) [
  | inl small ↦ (n + b'0', [], rw small refl)
  | inr large ↦
      (let (c, s, e) = digits-cons fuel (n / 10) in
        (c, s ++ (n % 10 + b'0') ∷ [], rw large (ap (λ front. front ++ (n % 10 + b'0') ∷ []) e)))
]

-- A digit is neither white space nor a sign.
skip_space-digit : (c : ℕ) (s : List ℕ) → is_digit c ≡ true → skip_space (b' ' ∷ c ∷ s) ≡ c ∷ s
unfolding skip_space
skip_space-digit c s h = ground arith

split_sign-digit : (c : ℕ) (s : List ℕ) → is_digit c ≡ true → split_sign (c ∷ s) ≡ (false, c ∷ s)
unfolding split_sign
split_sign-digit c s h = ground arith

unsigned_of-small :
    (c : ℕ) (s : List ℕ)
    → decimal 0 (c ∷ s) ≤ uint32_max
    → unsigned_of false (c ∷ s) ≡ (decimal 0 (c ∷ s), false)
unfolding unsigned_of
unsigned_of-small c s h = ground arith

-- The stream in front of a blank and more.
abbrev pub at_blank : List ℕ → StringStream
at_blank s = record { rest = b' ' ∷ s; eof = false; fail = false }

read_digits :
    (c : ℕ) (s tail : List ℕ) (m : ℕ)
    → every is_digit (c ∷ s) ≡ true
    → stops is_digit tail ≡ true
    → decimal 0 (c ∷ s) ≤ uint32_max
    → read_uint32 (at_blank (c ∷ s ++ tail)) m ≡ (decimal 0 (c ∷ s), after_read tail false)
unfolding read_uint32
read_digits c s tail m pass stop small =
    let digit : is_digit c ≡ true = ground arith in
    rw (skip_space-digit c (s ++ tail) digit) (
      rw (split_sign-digit c (s ++ tail) digit)
        (rw (span_lem is_digit (c ∷ s) tail pass stop) (rw (unsigned_of-small c s small) refl)))

-- A numeral of a uint32_t is read back as the number it was written for, up to what follows it.
pub read_uint32-numeral :
    (n : ℕ) (tail : List ℕ) (m : ℕ)
    → n ≤ uint32_max
    → stops is_digit tail ≡ true
    → read_uint32 (at_blank (numeral n ++ tail)) m ≡ (n, after_read tail false)
read_uint32-numeral n tail m small stop =
    let (c, s, shape) = digits-cons 9 n in
    let value : decimal 0 (c ∷ s) ≡ n =
      ap (decimal 0) (sym shape) ∙ decimal-digits 9 n (omega arith) in
    let pass : every is_digit (c ∷ s) ≡ true = ap (every is_digit) (sym shape) ∙ digits_pass 9 n in
    ap (λ front. read_uint32 (at_blank (front ++ tail)) m) shape
    ∙ read_digits c s tail m pass stop (omega (arith, value))
    ∙ ap (λ k. (k, after_read tail false)) value
