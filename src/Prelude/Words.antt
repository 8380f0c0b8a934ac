-- ===== src/Prelude/Words.antt =====
-- Machine words as native numbers. An unsigned word is a number below the modulus; an int32_t is its
-- bit pattern, so that addition and subtraction are those of uint32_t and only the order differs.
use Prim.Native.Nat.{ℕ, ◌+◌, ◌-◌, ◌*◌, ◌%◌}
use mathlib.Core.Bool.{Bool}
use mpmt_test_stand.Prelude.Tests.{leb}

abbrev pub u8 : ℕ → ℕ
u8 n = n % 256

abbrev pub u32_mod : ℕ
u32_mod = 4294967296

abbrev pub u32 : ℕ → ℕ
u32 n = n % 4294967296

abbrev pub u64 : ℕ → ℕ
u64 n = n % 18446744073709551616

abbrev pub add32 : ℕ → ℕ → ℕ
add32 a b = (a + b) % 4294967296

-- `-` on ℕ stops at 0, so the modulus is added first.
abbrev pub sub32 : ℕ → ℕ → ℕ
sub32 a b = (a + (4294967296 - b % 4294967296)) % 4294967296

abbrev pub mul32 : ℕ → ℕ → ℕ
mul32 a b = (a * b) % 4294967296

abbrev pub neg32 : ℕ → ℕ
neg32 a = (4294967296 - a % 4294967296) % 4294967296

abbrev pub sub64 : ℕ → ℕ → ℕ
sub64 a b = (a + (18446744073709551616 - b % 18446744073709551616)) % 18446744073709551616

-- The order of int32_t: that of the bit patterns with the sign bit turned over.
abbrev pub int32_leb : ℕ → ℕ → Bool
int32_leb a b = leb ((a + 2147483648) % 4294967296) ((b + 2147483648) % 4294967296)
