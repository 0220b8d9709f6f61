-- ===== src/Prelude/Words.antt =====
-- Machine words as native numbers. An `int` is its two's-complement pattern below `2 ^ 32`.
use Prim.Native.Nat.{ℕ, ◌+◌, ◌-◌, ◌%◌, ◌^◌}
use mathlib.Core.Bool.{Bool}
use fuse_file_system.Prelude.Tests.{ltb, leb, if◌then◌else◌}

abbrev pub word : ℕ
word = 2 ^ 32

-- The sign bit of an `int`.
abbrev pub is_negative : ℕ → Bool
is_negative a = leb (2 ^ 31) a

-- `(int) n` of a wider number, and the sum and difference of two `int`s.
abbrev pub to_int : ℕ → ℕ
to_int n = n % 2 ^ 32

abbrev pub add_int : ℕ → ℕ → ℕ
add_int a b = (a + b) % 2 ^ 32

abbrev pub sub_int : ℕ → ℕ → ℕ
sub_int a b = (a + 2 ^ 32 - b) % 2 ^ 32

-- `a < b` between `int`s: the order of the patterns with the sign bit turned.
abbrev pub lt_int : ℕ → ℕ → Bool
lt_int a b = ltb ((a + 2 ^ 31) % 2 ^ 32) ((b + 2 ^ 31) % 2 ^ 32)

-- Sums and differences of 64-bit unsigned numbers.
abbrev pub add_size : ℕ → ℕ → ℕ
add_size a b = (a + b) % 2 ^ 64

abbrev pub sub_size : ℕ → ℕ → ℕ
sub_size a b = (a + 2 ^ 64 - b) % 2 ^ 64

-- An `int` as a 64-bit number: the sign is extended.
abbrev pub extend : ℕ → ℕ
extend a = if is_negative a then a + 2 ^ 64 - 2 ^ 32 else a
