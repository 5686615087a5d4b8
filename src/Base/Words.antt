-- ===== src/Base/Words.antt =====
-- Go's unsigned integers as native numbers: the wrap-around is a remainder.
use Prim.Native.Nat.{ℕ, ◌%◌, ◌^◌, ◌<◌}
use mathlib.Core.Path.{◌≡◌}
use native.Mathlib.Omega.{arith}

abbrev pub u64_mod : ℕ
u64_mod = 2 ^ 64

-- uint64(n)
unfoldable pub u64 : ℕ → ℕ
u64 n = n % 2 ^ 64

pub u64-lt : (n : ℕ) → u64 n < 2 ^ 64
unfolding u64
u64-lt n = omega arith

pub u64_of_lt : (n : ℕ) → n < 2 ^ 64 → u64 n ≡ n
unfolding u64
u64_of_lt n h = omega arith

-- uint256.Int arithmetic wraps the same way.
unfoldable pub u256 : ℕ → ℕ
u256 n = n % 2 ^ 256

pub u256-lt : (n : ℕ) → u256 n < 2 ^ 256
unfolding u256
u256-lt n = omega arith

pub u256_of_lt : (n : ℕ) → n < 2 ^ 256 → u256 n ≡ n
unfolding u256
u256_of_lt n h = omega arith
