-- ===== src/Tests/Panels.antt =====
-- The settings panel at concrete inputs.
use sni_lua.Common.{
  ℕ, ◌≡◌, refl, arith, true, false, ◌||◌, inr, List, [], ◌∷◌, some, none, map, All, str, str_eq,
  min, max,
}
use sni_lua.Controls.{Controls, checkbox, slider, button}
use sni_lua.Host.Panel.Between.{IsBetween, IsInBounds}
use sni_lua.Host.Panel.Calls.{
  Call, checks, slides, offers, calls, DeclaresAll, done, more, a_checkbox, a_slider, a_button,
}
use sni_lua.Host.Panel.Keys.{DistinctIds}
use sni_lua.Host.Panel.Reload.{reload-restores}
use sni_lua.Host.Panel.Session.{Op, sets, drains, edits, session, session-IsInRange}
use sni_lua.Host.Panel.Widgets.{drags, clicks}
use sni_lua.Host.Panel.{entry, drained, persist_controls, clamp_between, clamp}
use sni_lua.Host.Values.{number}
use sni_lua.Runtime.Store.{Store}
use sni_lua.Runtime.Store as Store
use sni_lua.Tests.Data.{whole}
use sni_lua.Tests.Toys.{Tree, trees, trees-Reads, whole-IsOrdered, whole_values}

abbrev declared : List (Call ℕ)
declared =
    checks (str "grid") (str "Grid") (some true)
    ∷ slides (str "size") (str "Size") 1 9 none
    ∷ offers (str "go") (str "Go")
    ∷ []

abbrev panel : Controls ℕ
panel = record {
  items =
      checkbox (str "grid") (str "Grid") false
      ∷ slider (str "size") (str "Size") 1 9 5
      ∷ button (str "go") (str "Go") true
      ∷ [];
}

abbrev panel-Declared : DeclaresAll declared panel.items
panel-Declared = more (a_checkbox (str "grid") (str "Grid") (some true) false) (
    more (a_slider (str "size") (str "Size") 1 9 none 5)
      (more (a_button (str "go") (str "Go") true) done))

-- the ids are apart
ids : DistinctIds whole trees panel.items
unfolding entry str_eq
ids = ((refl, (tt, tt)), ((tt, tt), (tt, tt)))

-- a slider's knob stops at its ends
abbrev dragged_to : (lo hi x : ℕ) → ℕ
dragged_to lo hi x = max (min lo hi) (min (max lo hi) x)

stays :
    (lo hi x : ℕ)
    → (whole.gt (max lo hi) (min lo hi) || whole.eq (min lo hi) (max lo hi)) ≡ true
    → IsBetween whole (min lo hi) (max lo hi) (dragged_to lo hi x)
stays lo hi x e = inr (ground arith, ground arith)

abbrev kept : Store Tree
kept = persist_controls whole trees panel Store.new

reload-restores_example :
    calls whole trees kept declared (record { items = [] })
    ≡ some (record { items = map drained panel.items })
unfolding clamp_between clamp
reload-restores_example =
    reload-restores whole trees trees-Reads Store.new kept declared panel panel-Declared
      (tt, ((refl, tt), (tt, tt))) ids refl

abbrev operations : List (Op ℕ)
operations =
    sets (str "size") (number 40) ∷ edits 1 (drags 7) ∷ edits 2 clicks ∷ drains (str "go") ∷ []

session-IsInRange_example :
    (cs : Controls ℕ) × (session whole whole_values dragged_to trees Store.new declared operations
      ≡ some cs)
    × DeclaresAll declared cs.items
    × All (IsInBounds whole) cs.items
session-IsInRange_example =
    session-IsInRange whole whole-IsOrdered dragged_to stays whole_values trees Store.new declared
      operations (tt, (refl, (tt, tt))) (tt, (tt, (tt, (tt, tt))))
