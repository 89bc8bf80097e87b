-- ===== src/Host/Values.antt =====
-- The values that pass between a script, its panel and its store. JSON is `serde_json`'s and the
-- numbers of a Lua value are converted by mlua: both are interfaces. `F` stands for `f64`.
use sni_lua.Common.Int.{ℤ}
use sni_lua.Common.{ℕ, Bool, Option, some, ◌≡◌, Str}
use sni_lua.Runtime.Store.{Doc}

pub record Json (F : Type 0) : Type 1 where
  pub J : Type 0
  pub of_bool : Bool → J
  pub of_f64 : F → J
  pub of_str : Str → J
  -- `json!` of an unsigned integer
  pub of_nat : ℕ → J
  -- `Value::Object`
  pub of_map : Doc J → J
  pub as_bool : J → Option Bool
  pub as_f64 : J → Option F
  pub as_str : J → Option Str
  pub as_u64 : J → Option ℕ
  pub as_map : J → Option (Doc J)

-- `IsFinite` tells the floats that have a JSON form: neither an infinity nor NaN.
pub record Reads {F : Type 0} (js : Json F) (IsFinite : F → Type 0) : Type 0 where
  pub bools : (b : Bool) → js.as_bool (js.of_bool b) ≡ some b
  pub floats : (x : F) → IsFinite x → js.as_f64 (js.of_f64 x) ≡ some x
  pub strs : (s : Str) → js.as_str (js.of_str s) ≡ some s
  pub nats : (n : ℕ) → js.as_u64 (js.of_nat n) ≡ some n
  pub maps : (m : Doc js.J) → js.as_map (js.of_map m) ≡ some m

-- mlua's `Value`, with one constructor for what no conversion here accepts
pub data Value (F : Type 0) : Type 0 where
  nil : Value F
  boolean : Bool → Value F
  integer : ℤ → Value F
  number : F → Value F
  string : Str → Value F
  other : Value F

-- mlua's conversions to numbers
pub record Numbers (F : Type 0) : Type 0 where
  pub as_f64 : Value F → Option F
  pub as_u64 : Value F → Option ℕ
