-- ===== src/Prelude/Words.antt =====
-- Rust's `usize` and `u64` on a 64-bit target: numbers below 2 ^ 64 with wrapping addition and
-- subtraction, which is what `fetch_add`, `fetch_sub` and release-mode `+=` and `-=` compute.
use Prim.Native.Nat.{ℕ, ◌+◌, ◌-◌, ◌%◌, ◌^◌, ◌≤◌, ◌<◌}
use mathlib.Core.Path.{◌≡◌}
use native.Mathlib.Omega.{arith}

abbrev pub usize_mod : ℕ
usize_mod = 2 ^ 64

unfoldable pub wrapping_add : ℕ → ℕ → ℕ
wrapping_add a b = (a + b) % usize_mod

unfoldable pub wrapping_sub : ℕ → ℕ → ℕ
wrapping_sub a b = (a + usize_mod - b) % usize_mod

-- No wrap where the sum fits.
pub wrapping_add_fits : (a b : ℕ) → a + b < usize_mod → wrapping_add a b ≡ a + b
unfolding wrapping_add
wrapping_add_fits a b h = omega arith

-- No wrap where the difference is not negative.
pub wrapping_sub_fits : (a b : ℕ) → b ≤ a → a < usize_mod → wrapping_sub a b + b ≡ a
unfolding wrapping_sub
wrapping_sub_fits a b h k = omega arith
