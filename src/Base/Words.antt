-- ===== src/Base/Words.antt =====
-- Unsigned machine words as native numbers: every operation wraps as the hardware's does.
use Prim.Native.Nat.{ℕ, ◌+◌, ◌-◌, ◌%◌, ◌^◌}
use libgroupcache.Base.Tests.{ltb, if◌then◌else◌}

abbrev pub u64_mod : ℕ
u64_mod = 2 ^ 64

abbrev pub u32_mod : ℕ
u32_mod = 2 ^ 32

abbrev pub u16_mod : ℕ
u16_mod = 2 ^ 16

abbrev pub add64 : ℕ → ℕ → ℕ
add64 a b = (a + b) % u64_mod

-- `-` on ℕ stops at 0, so the modulus is added first.
abbrev pub sub64 : ℕ → ℕ → ℕ
sub64 a b = (a + u64_mod - b) % u64_mod

-- The MAX and MIN macros.
abbrev pub max_of : ℕ → ℕ → ℕ
max_of a b = if ltb b a then a else b

abbrev pub min_of : ℕ → ℕ → ℕ
min_of a b = if ltb a b then a else b
