-- ===== src/Word.antt =====
-- The integer types of student-distrib/types.h over the native numbers. A value of a w-bit type is
-- its bit pattern, below 2 ^ w; the signed types are read from the same patterns.
use ece391_mp3_illinix.Prelude.{ℕ, ◌+◌, ◌-◌, ◌/◌, ◌%◌, ◌^◌, Bool, ltb, leb, if◌then◌else◌}

abbrev pub u8 : ℕ → ℕ
u8 n = n % 2 ^ 8

abbrev pub u16 : ℕ → ℕ
u16 n = n % 2 ^ 16

abbrev pub u32 : ℕ → ℕ
u32 n = n % 2 ^ 32

-- `a - b` on uint32_t and int32_t.
abbrev pub sub32 : ℕ → ℕ → ℕ
sub32 a b = (a + 2 ^ 32 - b) % 2 ^ 32

-- `-1` as int32_t, the error code of the kernel.
abbrev pub minus_one : ℕ
minus_one = 2 ^ 32 - 1

-- Whether an int32_t is negative.
abbrev pub is_neg : ℕ → Bool
is_neg a = leb (2 ^ 31) a

-- `a < b` and `a <= b` on int32_t.
abbrev pub slt : ℕ → ℕ → Bool
slt a b = ltb ((a + 2 ^ 31) % 2 ^ 32) ((b + 2 ^ 31) % 2 ^ 32)

abbrev pub sle : ℕ → ℕ → Bool
sle a b = leb ((a + 2 ^ 31) % 2 ^ 32) ((b + 2 ^ 31) % 2 ^ 32)

-- `a / k` and `a % k` on int32_t for a constant k above 0: C rounds towards 0.
abbrev pub sdiv : ℕ → ℕ → ℕ
sdiv a k = if is_neg a then sub32 0 ((2 ^ 32 - a) / k) else a / k

abbrev pub smod : ℕ → ℕ → ℕ
smod a k = if is_neg a then sub32 0 ((2 ^ 32 - a) % k) else a % k

-- The promotion of a char, which is signed here, to int.
abbrev pub sext8 : ℕ → ℕ
sext8 b = if ltb b 128 then b else b + 2 ^ 32 - 256
