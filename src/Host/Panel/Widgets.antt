-- ===== src/Host/Panel/Widgets.antt =====
-- crates/sni-lua-app/src/main.rs: the script tab, in which the user edits the controls in place. What
-- the egui widgets return is an argument: an `Edit` is the user's action on one control, `drag` is the
-- value of a slider, and `changed` is whether a widget reported a change.
use sni_lua.Common.Float.{Float}
use sni_lua.Common.{
  ℕ, zero, suc, ◌+◌, ◌*◌, ◌^◌, Bool, true, List, [], ◌∷◌, length, if◌then◌else◌, ltb, Str,
}
use sni_lua.Controls.{
  Control, Controls, header, label, checkbox, slider, text, color, select, button,
}
use sni_lua.Host.Panel.{persist_controls}
use sni_lua.Host.Values.{Json}
use sni_lua.Runtime.Store.{Store}

pub data Edit (F : Type 0) : Type 0 where
  ticks : Bool → Edit F
  drags : F → Edit F
  types : Str → Edit F
  -- red, green, blue and alpha
  picks : (r g b a : ℕ) → Edit F
  chooses : ℕ → Edit F
  clicks : Edit F

module _ {F : Type 0} where
  abbrev pub ticked : Edit F → Bool → Bool
  ticked (ticks b) v = b
  ticked _ v = v

  abbrev pub dragged : ((lo hi x : F) → F) → (lo hi : F) → Edit F → F → F
  dragged drag lo hi (drags x) v = drag lo hi x
  dragged drag lo hi _ v = v

  abbrev pub typed : Edit F → Str → Str
  typed (types s) v = s
  typed _ v = v

  -- the four bytes, shifted into place
  abbrev pub picked : Edit F → ℕ → ℕ
  picked (picks r g b a) v = a * 2 ^ 24 + r * 2 ^ 16 + g * 2 ^ 8 + b
  picked _ v = v

  -- the box offers the options alone
  abbrev pub chosen : List Str → Edit F → ℕ → ℕ
  chosen options (chooses n) v = if ltb n (length options) then n else v
  chosen options _ v = v

  abbrev pub clicked : Edit F → Bool → Bool
  clicked clicks pressed = true
  clicked _ pressed = pressed

  -- an edit of another kind of control does nothing
  unfoldable pub edit : ((lo hi x : F) → F) → Edit F → Control F → Control F
  edit drag e (header t) = header t
  edit drag e (label t) = label t
  edit drag e (checkbox i l v) = checkbox i l (ticked e v)
  edit drag e (slider i l lo hi v) = slider i l lo hi (dragged drag lo hi e v)
  edit drag e (text i l v) = text i l (typed e v)
  edit drag e (color i l v) = color i l (picked e v)
  edit drag e (select i l options v) = select i l options (chosen options e v)
  edit drag e (button i l pressed) = button i l (clicked e pressed)

  -- the edit of the `n`-th control
  unfoldable pub edit_at : ((lo hi x : F) → F) → ℕ → Edit F → List (Control F) → List (Control F)
  unfolding edit
  edit_at drag n e [] = []
  edit_at drag zero e (c ∷ cs) = edit drag e c ∷ cs
  edit_at drag (suc n) e (c ∷ cs) = c ∷ edit_at drag n e cs

unfoldable pub render_script_tab :
    (fl : Float) (js : Json fl.F)
    → ((lo hi x : fl.F) → fl.F)
    → ℕ
    → Edit fl.F
    → Bool
    → Controls fl.F
    → Store js.J
    → Controls fl.F × Store js.J
unfolding edit_at persist_controls
render_script_tab fl js drag n e changed cs s =
    let after : Controls fl.F = record { items = edit_at drag n e cs.items } in
    (after, if changed then persist_controls fl js after s else s)
