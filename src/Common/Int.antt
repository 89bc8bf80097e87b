-- ===== src/Common/Int.antt =====
-- Signed machine integers: the integer that a bit pattern stands for, as `v as i8` and its kin.
use Prim.Native.Nat.{ℕ, ◌-◌, ◌%◌, ◌^◌}
use sni_lua.Common.Tests.{ltb, if◌then◌else◌}

-- `negsuc n` is -(n + 1).
pub data ℤ : Type 0 where
  pos : ℕ → ℤ
  negsuc : ℕ → ℤ

abbrev pub as_i8 : ℕ → ℤ
as_i8 v = if ltb v (2 ^ 7) then pos v else negsuc (2 ^ 8 - v - 1)

abbrev pub as_i16 : ℕ → ℤ
as_i16 v = if ltb v (2 ^ 15) then pos v else negsuc (2 ^ 16 - v - 1)

abbrev pub as_i32 : ℕ → ℤ
as_i32 v = if ltb v (2 ^ 31) then pos v else negsuc (2 ^ 32 - v - 1)

-- the bit pattern of an integer, `z as u32`
abbrev pub as_u32 : ℤ → ℕ
as_u32 (pos n) = n % 2 ^ 32
as_u32 (negsuc n) = 2 ^ 32 - 1 - n % 2 ^ 32
