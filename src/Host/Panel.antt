-- ===== src/Host/Panel.antt =====
-- The `ui` table: a script declares the controls of its panel, seeded from its store, and reads and
-- sets their values. An operation on a slider panics where `f64::clamp` does; `none` is the panic.
pub mod Between
pub mod Calls
pub mod Declared
pub mod Keys
pub mod Valid
pub mod Widgets
pub mod Reload
pub mod Session
pub mod Clicks
use sni_lua.Common.Float.{Float}
use sni_lua.Common.Int.{pos}
use sni_lua.Common.{
  ℕ, ◌+◌, ◌-◌, ◌%◌, Bool, true, false, ◌||◌, List, [], ◌∷◌, ◌++◌, Option, none, some, length, min,
  max, if◌then◌else◌, Str, str, find, u32_mod,
}
use sni_lua.Controls.{
  Control, Controls, header, label, checkbox, slider, text, color, select, button, has_id, is_some,
}
use sni_lua.Host.Values.{Json, Value, Numbers, nil, boolean, integer, number, string, other}
use sni_lua.Runtime.Store.{Store, Doc, lookup, put}
use sni_lua.Runtime.Store as Store

abbrev pub store_key : Str
store_key = str "__ui_controls"

abbrev pub and_then : {A B : Type 0} → Option A → (A → Option B) → Option B
and_then none f = none
and_then (some a) f = f a

abbrev pub unwrap_or : {A : Type 0} → Option A → A → A
unwrap_or none d = d
unwrap_or (some a) d = a

-- `f64::clamp`, which asserts `lo <= hi`
unfoldable pub clamp : (fl : Float) → fl.F → fl.F → fl.F → Option fl.F
clamp fl lo hi x =
    if fl.gt hi lo || fl.eq lo hi
    then some (if fl.gt lo x then lo else if fl.gt x hi then hi else x)
    else none

-- `x.clamp(min.min(max), min.max(max))`
unfoldable pub clamp_between : (fl : Float) → fl.F → fl.F → fl.F → Option fl.F
unfolding clamp
clamp_between fl lo hi x = clamp fl (fl.min lo hi) (fl.max lo hi) x

-- the first control with the id
unfoldable pub with_first :
    {F : Type 0}
    → Str
    → (Control F → Option (Control F))
    → List (Control F)
    → Option (List (Control F))
unfolding has_id
with_first key f [] = some []
with_first key f (c ∷ cs) =
    let rest = with_first key f cs in
    if has_id key c
    then elim (f c) [ none ↦ none | some d ↦ some (d ∷ cs) ]
    else elim rest [ none ↦ none | some ds ↦ some (c ∷ ds) ]

abbrev pub append : {F : Type 0} → Control F → Controls F → Controls F
append c cs = record { items = cs.items ++ c ∷ [] }

module _ (fl : Float) (js : Json fl.F) where
  -- what the store holds of a control
  unfoldable pub seed : Store js.J → Str → Option js.J
  unfolding Store.get lookup
  seed s id = and_then (Store.get s store_key) (λ j. and_then (js.as_map j) (λ m. lookup id m))

  unfoldable pub ui_checkbox :
      Store js.J → (id caption : Str) → Option Bool → Controls fl.F → Controls fl.F
  unfolding seed
  ui_checkbox s id caption default cs =
      append
        (checkbox id caption
          (unwrap_or (and_then (seed s id) js.as_bool) (unwrap_or default false)))
        cs

  unfoldable pub ui_slider :
      Store js.J
      → (id caption : Str) → (lo hi : fl.F) → Option fl.F
      → Controls fl.F
      → Option (Controls fl.F)
  unfolding seed clamp_between
  ui_slider s id caption lo hi default cs =
      elim (clamp_between fl lo hi
        (unwrap_or (and_then (seed s id) js.as_f64) (unwrap_or default lo))) [
          | none ↦ none
          | some v ↦ some (append (slider id caption lo hi v) cs)
        ]

  unfoldable pub ui_text :
      Store js.J → (id caption : Str) → Option Str → Controls fl.F → Controls fl.F
  unfolding seed
  ui_text s id caption default cs =
      append (text id caption (unwrap_or (and_then (seed s id) js.as_str) (unwrap_or default [])))
        cs

  -- `as u32` keeps the low bits
  unfoldable pub ui_color :
      Store js.J → (id caption : Str) → Option ℕ → Controls fl.F → Controls fl.F
  unfolding seed
  ui_color s id caption default cs =
      append
        (color id caption (
          unwrap_or (and_then (and_then (seed s id) js.as_u64) (λ v. some (v % u32_mod)))
            (unwrap_or default 0xFFFF_FFFF)))
        cs

  unfoldable pub ui_select :
      Store js.J → (id caption : Str) → List Str → Option ℕ → Controls fl.F → Controls fl.F
  unfolding seed
  ui_select s id caption options default cs =
      append
        (select id caption options (
          min (unwrap_or (and_then (seed s id) js.as_u64) (unwrap_or default 1 - 1))
            (max (length options) 1 - 1)))
        cs

  -- what `persist_controls` records of a control
  unfoldable pub entry : Control fl.F → Option (Str × js.J)
  entry (checkbox i l v) = some (i, js.of_bool v)
  entry (slider i l lo hi v) = some (i, js.of_f64 v)
  entry (text i l v) = some (i, js.of_str v)
  entry (color i l v) = some (i, js.of_nat v)
  entry (select i l options v) = some (i, js.of_nat v)
  entry (header t) = none
  entry (label t) = none
  entry (button i l pressed) = none

  unfoldable pub mirror : List (Control fl.F) → Doc js.J → Doc js.J
  unfolding put entry
  mirror [] m = m
  mirror (c ∷ cs) m = mirror cs (elim (entry c) [ none ↦ m | some (k, v) ↦ put k v m ])

  unfoldable pub persist_controls : Controls fl.F → Store js.J → Store js.J
  unfolding mirror Store.set
  persist_controls cs s = elim (mirror cs.items []) [
    | [] ↦ s
    | e ∷ m ↦ Store.set store_key (js.of_map (e ∷ m)) s
  ]

unfoldable pub ui_header : {F : Type 0} → Str → Controls F → Controls F
ui_header t = append (header t)

unfoldable pub ui_label : {F : Type 0} → Str → Controls F → Controls F
ui_label t = append (label t)

unfoldable pub ui_button : {F : Type 0} → (id caption : Str) → Controls F → Controls F
ui_button id caption = append (button id caption false)

-- the value of a control, as the script gets it
unfoldable pub value_of : {F : Type 0} → Control F → Value F
value_of (checkbox i l v) = boolean v
value_of (slider i l lo hi v) = number v
value_of (text i l v) = string v
value_of (color i l v) = integer (pos v)
value_of (select i l options v) = integer (pos (v + 1))
value_of (header t) = nil
value_of (label t) = nil
value_of (button i l pressed) = nil

unfoldable pub ui_get : {F : Type 0} → Controls F → Str → Value F
unfolding has_id value_of
ui_get cs key = elim (find (has_id key) cs.items) [ none ↦ nil | some c ↦ value_of c ]

unfoldable pub ui_exists : {F : Type 0} → Controls F → Str → Bool
unfolding has_id
ui_exists cs key = is_some (find (has_id key) cs.items)

-- the latch of a button, and the button drained
abbrev pub is_pressed : {F : Type 0} → Control F → Bool
is_pressed (button i l pressed) = pressed
is_pressed _ = false

abbrev pub drained : {F : Type 0} → Control F → Control F
drained (button i l pressed) = button i l false
drained c = c

unfoldable pub drain : {F : Type 0} → Str → List (Control F) → List (Control F) × Bool
unfolding has_id
drain key [] = ([], false)
drain key (c ∷ cs) =
    let rest = drain key cs in
    if has_id key c then (drained c ∷ cs, is_pressed c) else (c ∷ rest.0, rest.1)

unfoldable pub ui_pressed : {F : Type 0} → Controls F → Str → Controls F × Bool
unfolding drain
ui_pressed cs key = (record { items = (drain key cs.items).0 }, (drain key cs.items).1)

module _ (fl : Float) (num : Numbers fl.F) where
  -- a control after `ui.set`
  unfoldable pub set_value : Value fl.F → Control fl.F → Option (Control fl.F)
  unfolding clamp_between
  set_value v (checkbox i l old) = some (checkbox i l (elim v [ boolean b ↦ b | _ ↦ false ]))
  set_value v (slider i l lo hi old) = elim (num.as_f64 v) [
    | none ↦ some (slider i l lo hi old)
    | some x ↦ elim (clamp_between fl lo hi x) [ none ↦ none | some y ↦ some (slider i l lo hi y) ]
  ]
  set_value v (text i l old) = some (text i l (elim v [ string s ↦ s | _ ↦ old ]))
  set_value v (color i l old) =
      some (color i l (elim (num.as_u64 v) [ none ↦ old | some n ↦ n % u32_mod ]))
  set_value v (select i l options old) = some (
      select i l options
        (elim (num.as_u64 v) [ none ↦ old | some n ↦ min (n - 1) (length options - 1) ]))
  set_value v (header t) = some (header t)
  set_value v (label t) = some (label t)
  set_value v (button i l pressed) = some (button i l pressed)

  unfoldable pub ui_set : Str → Value fl.F → Controls fl.F → Option (Controls fl.F)
  unfolding with_first set_value
  ui_set key v cs = elim (with_first key (set_value v) cs.items) [
    | none ↦ none
    | some items ↦ some (record { items = items })
  ]
