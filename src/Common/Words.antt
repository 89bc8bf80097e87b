-- ===== src/Common/Words.antt =====
-- Rust's fixed-width unsigned arithmetic. `+` and `-` wrap, as in a release build; the
-- `saturating_` forms are those of the standard library.
use Prim.Native.Nat.{ℕ, ◌+◌, ◌-◌, ◌%◌, ◌^◌, ◌≤◌, ◌<◌, min}
use mathlib.Core.Path.{◌≡◌}
use native.Mathlib.Omega.{arith}

abbrev pub u32_mod : ℕ
u32_mod = 2 ^ 32

abbrev pub u64_mod : ℕ
u64_mod = 2 ^ 64

abbrev pub u32_max : ℕ
u32_max = 2 ^ 32 - 1

abbrev pub u64_max : ℕ
u64_max = 2 ^ 64 - 1

abbrev pub u128_max : ℕ
u128_max = 2 ^ 128 - 1

abbrev pub saturating_add128 : ℕ → ℕ → ℕ
saturating_add128 a b = min (a + b) u128_max

-- `as u32` of a wider integer
abbrev pub to_u32 : ℕ → ℕ
to_u32 a = a % u32_mod

abbrev pub add32 : ℕ → ℕ → ℕ
add32 a b = (a + b) % u32_mod

abbrev pub sub32 : ℕ → ℕ → ℕ
sub32 a b = (a + u32_mod - b) % u32_mod

abbrev pub add64 : ℕ → ℕ → ℕ
add64 a b = (a + b) % u64_mod

abbrev pub saturating_add32 : ℕ → ℕ → ℕ
saturating_add32 a b = min (a + b) u32_max

abbrev pub saturating_add64 : ℕ → ℕ → ℕ
saturating_add64 a b = min (a + b) u64_max

-- An offset taken from a base and added back gives the address, wrapped or not.
pub add32-sub32 : (base a : ℕ) → base < u32_mod → a < u32_mod → add32 base (sub32 a base) ≡ a
add32-sub32 base a hb ha = omega arith

pub sub32-eq : (a b : ℕ) → a < u32_mod → b ≤ a → sub32 a b ≡ a - b
sub32-eq a b ha hb = omega arith

pub add32-eq : (a b : ℕ) → a + b < u32_mod → add32 a b ≡ a + b
add32-eq a b h = omega arith
