-- ===== src/Common/Words.antt =====
-- Machine words as bit patterns below a power of two: int64 and uint64 arithmetic that wraps, and
-- the signed order, which is the unsigned order after the sign bit is flipped.
use Prim.Native.Nat.{ℕ, ◌+◌, ◌-◌, ◌%◌}
use mathlib.Core.Bool.{Bool}
use package.record_storage.Common.Tests.{ltb}

-- 2 ^ 32, 2 ^ 63 and 2 ^ 64
abbrev pub u32_mod : ℕ
u32_mod = 4294967296

abbrev pub half64 : ℕ
half64 = 9223372036854775808

abbrev pub u64_mod : ℕ
u64_mod = 18446744073709551616

abbrev pub u32 : ℕ → ℕ
u32 n = n % u32_mod

abbrev pub u64 : ℕ → ℕ
u64 n = n % u64_mod

-- a + b and a - b on 64 bits; an int64 and a uint64 have the same patterns.
abbrev pub add64 : ℕ → ℕ → ℕ
add64 a b = (a + b) % u64_mod

abbrev pub sub64 : ℕ → ℕ → ℕ
sub64 a b = (a + (u64_mod - b % u64_mod)) % u64_mod

-- a < b, both read as int64
abbrev pub lt_i64 : ℕ → ℕ → Bool
lt_i64 a b = ltb ((a + half64) % u64_mod) ((b + half64) % u64_mod)
