-- ===== src/Controls.antt =====
-- crates/sni-lua-api/src/controls.rs: the settings panel that a script declares.
pub mod Lookup
use sni_lua.Common.Float.{Float}
use sni_lua.Common.{ℕ, Bool, true, false, not, List, Option, none, some, any, find, Str, str_eq}

-- `F` stands for `f64`
pub data Control (F : Type 0) : Type 0 where
  header label : Str → Control F
  checkbox : (id label : Str) → (value : Bool) → Control F
  slider : (id label : Str) → (min max value : F) → Control F
  text : (id label value : Str) → Control F
  color : (id label : Str) → (value : ℕ) → Control F
  select : (id label : Str) → (options : List Str) → (value : ℕ) → Control F
  button : (id label : Str) → (pressed : Bool) → Control F

pub record Controls (F : Type 0) : Type 0 where
  pub items : List (Control F)

abbrev pub is_some {ℓ} : {A : Type ℓ} → Option A → Bool
is_some none = false
is_some (some a) = true

module _ {F : Type 0} where
  unfoldable pub id : Control F → Option Str
  id (header t) = none
  id (label t) = none
  id (checkbox i l v) = some i
  id (slider i l lo hi v) = some i
  id (text i l v) = some i
  id (color i l v) = some i
  id (select i l options v) = some i
  id (button i l pressed) = some i

  -- `c.id() == Some(id)`
  unfoldable pub has_id : Str → Control F → Bool
  unfolding id str_eq
  has_id key c = elim (id c) [ none ↦ false | some i ↦ str_eq i key ]

  unfoldable pub is_empty : Controls F → Bool
  unfolding id
  is_empty cs = not (any (λ c. is_some (id c)) cs.items)

  unfoldable pub get : Controls F → Str → Option (Control F)
  unfolding has_id
  get cs key = find (has_id key) cs.items
