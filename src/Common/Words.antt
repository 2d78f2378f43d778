-- ===== src/Common/Words.antt =====
-- The integers of the C code as bit patterns: `int` and `enum` have 32 bits, `short` 16, `char` 8,
-- `size_t` and addresses 64. A negative `int` is a pattern from 2 ^ 31 on.
use Prim.Native.Nat.{ℕ, ◌+◌, ◌-◌, ◌%◌, ◌^◌}
use mathlib.Core.Bool.{Bool}
use communicate_core.Common.Tests.{ltb, if◌then◌else◌}

abbrev pub u32 : ℕ → ℕ
u32 n = n % 2 ^ 32

abbrev pub u64 : ℕ → ℕ
u64 n = n % 2 ^ 64

-- The `int` -1.
abbrev pub minus_one : ℕ
minus_one = 2 ^ 32 - 1

-- `a - b` on `int`.
abbrev pub sub_int : ℕ → ℕ → ℕ
sub_int a b = u32 (a + 2 ^ 32 - b)

abbrev pub is_negative : ℕ → Bool
is_negative a = ltb (2 ^ 31 - 1) a

-- `a < b` on `int`: with the sign bit turned over the order is that of the patterns.
abbrev pub lt_int : ℕ → ℕ → Bool
lt_int a b = ltb (u32 (a + 2 ^ 31)) (u32 (b + 2 ^ 31))

-- The conversion of an `int` to `size_t`, or to an offset of an address.
abbrev pub int_to_size : ℕ → ℕ
int_to_size a = if is_negative a then a + 2 ^ 64 - 2 ^ 32 else a

-- The conversion of a `short` to `int`.
abbrev pub short_to_int : ℕ → ℕ
short_to_int a = if ltb a (2 ^ 15) then a else a + 2 ^ 32 - 2 ^ 16
