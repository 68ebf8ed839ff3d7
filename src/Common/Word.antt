-- ===== src/Common/Word.antt =====
-- Machine words as native numbers. A uint64_t sum wraps at 2 ^ 64. An int32_t is kept as its bit
-- pattern, a number below 2 ^ 32 that stands for a negative one from 2 ^ 31 on.
use darling_dmg.Common.{ℕ, ◌+◌, ◌-◌, ◌%◌, ◌^◌, ltb, if◌then◌else◌}

abbrev pub u16_mod : ℕ
u16_mod = 2 ^ 16

abbrev pub u32_mod : ℕ
u32_mod = 2 ^ 32

abbrev pub i32_limit : ℕ
i32_limit = 2 ^ 31

abbrev pub u64_mod : ℕ
u64_mod = 2 ^ 64

-- A source of bytes is shorter than this, so that no sum of an offset in it and a count wraps.
abbrev pub size_limit : ℕ
size_limit = 2 ^ 63

abbrev pub add64 : ℕ → ℕ → ℕ
add64 a b = (a + b) % u64_mod

abbrev pub sub64 : ℕ → ℕ → ℕ
sub64 a b = (a + u64_mod - b) % u64_mod

-- The conversion of a uint64_t to an int32_t, and back, with its sign extended.
abbrev pub to_int32 : ℕ → ℕ
to_int32 a = a % u32_mod

abbrev pub widen : ℕ → ℕ
widen a = if ltb a i32_limit then a else a + u64_mod - u32_mod
