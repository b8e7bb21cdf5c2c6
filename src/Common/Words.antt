-- ===== src/Common/Words.antt =====
-- Machine words. A `uint64_t`, an `int64_t` and a pointer-sized integer are bit patterns below
-- 2 ^ 64, a `uint32_t` one below 2 ^ 32. An `int64_t` is negative when its top bit is set.
-- Signed overflow, undefined in C++, wraps here, as gcc's code does.
use Prim.Native.Nat.{ℕ, ◌+◌, ◌-◌, ◌*◌, ◌%◌, ◌^◌}
use mathlib.Core.Bool.{Bool}
use ec_gcm.Common.Tests.{ltb, leb, if◌then◌else◌}

abbrev pub u64 : ℕ
u64 = 2 ^ 64

abbrev pub add64 : ℕ → ℕ → ℕ
add64 a b = (a + b) % 2 ^ 64

abbrev pub sub64 : ℕ → ℕ → ℕ
sub64 a b = (a + 2 ^ 64 - b) % 2 ^ 64

abbrev pub mul64 : ℕ → ℕ → ℕ
mul64 a b = a * b % 2 ^ 64

abbrev pub add32 : ℕ → ℕ → ℕ
add32 a b = (a + b) % 2 ^ 32

abbrev pub sub32 : ℕ → ℕ → ℕ
sub32 a b = (a + 2 ^ 32 - b) % 2 ^ 32

abbrev pub is_neg : ℕ → Bool
is_neg a = leb (2 ^ 63) a

-- `a < b` and `a > b` on `int64_t`.
abbrev pub slt64 : ℕ → ℕ → Bool
slt64 a b = ltb ((a + 2 ^ 63) % 2 ^ 64) ((b + 2 ^ 63) % 2 ^ 64)

-- The larger of a and b, and the smaller, as `std::max` and `std::min` give them.
abbrev pub max64 : ℕ → ℕ → ℕ
max64 a b = if ltb a b then b else a

abbrev pub min64 : ℕ → ℕ → ℕ
min64 a b = if ltb b a then b else a

-- An `int32_t` as an `int64_t`.
abbrev pub widen : ℕ → ℕ
widen x = if leb (2 ^ 31) x then x + 2 ^ 64 - 2 ^ 32 else x
