-- ===== src/Common/Float.antt =====
-- `f32` arithmetic. The hardware's operations are an interface: every definition and theorem that
-- computes in `f32` takes them as an argument, so it holds of IEEE arithmetic with any rounding.
use Prim.Native.Nat.{ℕ, min}
use mathlib.Core.Bool.{Bool, true, false, ◌||◌}
use mathlib.Core.Path.{◌≡◌}
use sni_lua.Common.Words.{u32_max, u128_max}

pub record Float : Type 1 where
  pub F : Type 0
  -- `n as f32`
  pub of_nat : ℕ → F
  -- the decimal literal `n / d`
  pub lit : ℕ → ℕ → F
  pub add : F → F → F
  pub sub : F → F → F
  pub mul : F → F → F
  pub div : F → F → F
  pub min : F → F → F
  pub max : F → F → F
  pub floor : F → F
  pub ceil : F → F
  pub round : F → F
  pub gt : F → F → Bool
  pub eq : F → F → Bool
  pub is_finite : F → Bool
  -- the integer part; 0 for a negative number and NaN
  pub trunc : F → ℕ

-- `as u32` and `as u128` saturate
abbrev pub as_u32 : (fl : Float) → fl.F → ℕ
as_u32 fl x = min (fl.trunc x) u32_max

abbrev pub as_u128 : (fl : Float) → fl.F → ℕ
as_u128 fl x = min (fl.trunc x) u128_max

-- What IEEE 754 says of its tests; NaN is in no order.
pub record IsOrdered (fl : Float) : Type 0 where
  pub irreflexive : (x : fl.F) → fl.gt x x ≡ false
  pub asymmetric : (x y : fl.F) → fl.gt x y ≡ true → fl.gt y x ≡ false
  -- two that are no NaN are in one of the three orders, and a NaN is in none
  pub comparable :
      (x y : fl.F)
      → fl.eq x x ≡ true
      → fl.eq y y ≡ true
      → (fl.gt x y || (fl.gt y x || fl.eq x y)) ≡ true
  pub numbers :
      (x y : fl.F) → (fl.gt x y || fl.eq x y) ≡ true → (fl.eq x x ≡ true) × (fl.eq y y ≡ true)
  pub equal : (x y : fl.F) → fl.eq x y ≡ true → (fl.gt x y ≡ false) × (fl.gt y x ≡ false)
