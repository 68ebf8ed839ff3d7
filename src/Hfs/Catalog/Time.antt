-- ===== src/Hfs/Catalog/Time.antt =====
-- The conversion of times.
use darling_dmg.Common.{ℕ, refl, ◌+◌, ◌-◌, ◌<◌, ◌≤◌, ◌≡◌, arith}
use darling_dmg.Common.Word.{u32_mod}
use darling_dmg.Hfs.Catalog.{apple_to_unix_time, apple_offset}

-- Two apple times other than 0 with one unix time are the same.
pub apple_to_unix_time-eq :
    (a b : ℕ)
    → a < u32_mod
    → b < u32_mod
    → 0 < a
    → 0 < b
    → apple_to_unix_time a ≡ apple_to_unix_time b
    → a ≡ b
unfolding apple_to_unix_time
apple_to_unix_time-eq a b ha hb pa pb e = ground arith

-- The unix time 0 stands for the apple time 0. The unix time of an apple time from 1970 on is the seconds since then; one from before, other than 0,
-- becomes a time 2 ^ 32 seconds later. Every result has 32 bits.
pub apple_to_unix_time-cases :
    (a : ℕ)
    → a < u32_mod
    → (apple_to_unix_time 0 ≡ 0)
      × (apple_offset ≤ a → apple_to_unix_time a ≡ a - apple_offset)
      × (0 < a → a < apple_offset → apple_to_unix_time a ≡ a + u32_mod - apple_offset)
      × (apple_to_unix_time a < u32_mod)
unfolding apple_to_unix_time
apple_to_unix_time-cases a h = (refl, λ p. ground arith, λ p q. ground arith, ground arith)
