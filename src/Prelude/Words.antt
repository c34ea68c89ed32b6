-- ===== src/Prelude/Words.antt =====
-- Go's `uint64`: numbers below 2 ^ 64, whose sums and differences wrap.
use Prim.Native.Nat.{ℕ, ◌+◌, ◌-◌, ◌%◌, ◌^◌, ◌≤◌, ◌<◌}
use mathlib.Core.Path.{◌≡◌}
use native.Mathlib.Omega.{arith}

abbrev pub u64_mod : ℕ
u64_mod = 2 ^ 64

abbrev pub u128_mod : ℕ
u128_mod = 2 ^ 128

abbrev pub add64 : ℕ → ℕ → ℕ
add64 a b = (a + b) % u64_mod

-- `-` on ℕ stops at 0, so the modulus is added first.
abbrev pub sub64 : ℕ → ℕ → ℕ
sub64 a b = (a + u64_mod - b) % u64_mod

pub sub64-add : (a b : ℕ) → a < u64_mod → b ≤ a → sub64 a b + b ≡ a
sub64-add a b ha h = omega arith

pub add64-sub64 : (a b : ℕ) → a < u64_mod → b < u64_mod → add64 (sub64 a b) b ≡ a
add64-sub64 a b ha hb = omega arith
