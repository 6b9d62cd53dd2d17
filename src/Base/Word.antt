-- ===== src/Base/Word.antt =====
-- `usize` on a 64-bit target: additions and subtractions wrap.
use Prim.Native.Nat.{ℕ, ◌+◌, ◌-◌, ◌%◌, ◌^◌, ◌≤◌, ◌<◌}
use mathlib.Core.Path.{◌≡◌}
use native.Mathlib.Omega.{arith}

abbrev pub usize_mod : ℕ
usize_mod = 2 ^ 64

unfoldable pub add_usize : ℕ → ℕ → ℕ
add_usize a b = (a + b) % usize_mod

unfoldable pub sub_usize : ℕ → ℕ → ℕ
sub_usize a b = (a + usize_mod - b) % usize_mod

pub add_usize_lem : (a b : ℕ) → a + b < usize_mod → add_usize a b ≡ a + b
unfolding add_usize
add_usize_lem a b h = omega arith

pub sub_usize_lem : (a b : ℕ) → b ≤ a → a < usize_mod → sub_usize a b ≡ a - b
unfolding sub_usize
sub_usize_lem a b h h' = omega arith
