-- ===== src/Common/Words.antt =====
-- Machine integers as bit patterns: atomics wrap around.
use Prim.Native.Nat.{ℕ, ◌+◌, ◌-◌, ◌%◌, ◌^◌, ◌<◌}
use mathlib.Core.Path.{◌≡◌}
use mathlib.Core.Bool.{Bool}
use native.Mathlib.Omega.{arith}
use pingap.Common.Tests.{ltb}

-- `wrapping` addition and subtraction of one, on 32 bits.
abbrev pub inc32 : ℕ → ℕ
inc32 n = (n + 1) % 2 ^ 32

abbrev pub dec32 : ℕ → ℕ
dec32 n = (n + (2 ^ 32 - 1)) % 2 ^ 32

abbrev pub inc64 : ℕ → ℕ
inc64 n = (n + 1) % 2 ^ 64

-- Subtraction on 64 bits, which wraps around.
abbrev pub sub64 : ℕ → ℕ → ℕ
sub64 a b = (a + (2 ^ 64 - b)) % 2 ^ 64

-- The order of two `i32`, given by their bit patterns.
abbrev pub lt_i32 : ℕ → ℕ → Bool
lt_i32 a b = ltb ((a + 2 ^ 31) % 2 ^ 32) ((b + 2 ^ 31) % 2 ^ 32)

pub dec32-inc32 : (n : ℕ) → n < 2 ^ 32 → dec32 (inc32 n) ≡ n
dec32-inc32 n h = omega arith
