-- ===== src/Host/Panel/Calls.antt =====
-- The calls that declare a panel, as data, and what they declare.
use sni_lua.Common.Float.{Float}
use sni_lua.Common.{ℕ, Bool, List, [], ◌∷◌, Option, none, some, Str}
use sni_lua.Controls.{
  Control, Controls, header, label, checkbox, slider, text, color, select, button,
}
use sni_lua.Host.Panel.{
  ui_header, ui_label, ui_checkbox, ui_slider, ui_text, ui_color, ui_select, ui_button,
}
use sni_lua.Host.Values.{Json}
use sni_lua.Runtime.Store.{Store}

-- a call of `ui.header` and its kin, with its arguments
pub data Call (F : Type 0) : Type 0 where
  heads labels : Str → Call F
  checks : (id caption : Str) → Option Bool → Call F
  slides : (id caption : Str) → (lo hi : F) → Option F → Call F
  writes : (id caption : Str) → Option Str → Call F
  colors : (id caption : Str) → Option ℕ → Call F
  selects : (id caption : Str) → List Str → Option ℕ → Call F
  offers : (id caption : Str) → Call F

module _ (fl : Float) (js : Json fl.F) where
  unfoldable pub call : Store js.J → Call fl.F → Controls fl.F → Option (Controls fl.F)
  unfolding ui_header ui_label ui_checkbox ui_slider ui_text ui_color ui_select ui_button
  call s (heads t) cs = some (ui_header t cs)
  call s (labels t) cs = some (ui_label t cs)
  call s (checks i l d) cs = some (ui_checkbox fl js s i l d cs)
  call s (slides i l lo hi d) cs = ui_slider fl js s i l lo hi d cs
  call s (writes i l d) cs = some (ui_text fl js s i l d cs)
  call s (colors i l d) cs = some (ui_color fl js s i l d cs)
  call s (selects i l options d) cs = some (ui_select fl js s i l options d cs)
  call s (offers i l) cs = some (ui_button i l cs)

  unfoldable pub calls : Store js.J → List (Call fl.F) → Controls fl.F → Option (Controls fl.F)
  unfolding call
  calls s [] cs = some cs
  calls s (c ∷ rest) cs = elim (call s c cs) [ none ↦ none | some ds ↦ calls s rest ds ]

-- The control is one that the call declares, with any value.
pub data Declares {F : Type 0} : Call F → Control F → Type 0 where
  a_header : (t : Str) → Declares (heads t) (header t)
  a_label : (t : Str) → Declares (labels t) (label t)
  a_checkbox : (i l : Str) (d : Option Bool) (v : Bool) → Declares (checks i l d) (checkbox i l v)
  a_slider :
      (i l : Str) (lo hi : F) (d : Option F) (v : F)
      → Declares (slides i l lo hi d) (slider i l lo hi v)
  a_text : (i l : Str) (d : Option Str) (v : Str) → Declares (writes i l d) (text i l v)
  a_color : (i l : Str) (d : Option ℕ) (v : ℕ) → Declares (colors i l d) (color i l v)
  a_select :
      (i l : Str) (options : List Str) (d : Option ℕ) (v : ℕ)
      → Declares (selects i l options d) (select i l options v)
  a_button : (i l : Str) (pressed : Bool) → Declares (offers i l) (button i l pressed)

pub data DeclaresAll {F : Type 0} : List (Call F) → List (Control F) → Type 0 where
  done : DeclaresAll [] []
  more :
      {call : Call F} {c : Control F} {rest : List (Call F)} {cs : List (Control F)}
      → Declares call c
      → DeclaresAll rest cs
      → DeclaresAll (call ∷ rest) (c ∷ cs)
