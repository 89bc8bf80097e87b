-- ===== src/Host/Panel/Reload.antt =====
-- A panel that was persisted comes back when the script declares it again.
use mathlib.Core.List.{append_assoc, append-nil}
use sni_lua.Common.Float.{Float}
use sni_lua.Common.{
  ◌-◌, ◌≤◌, ◌<◌, ◌≡◌, refl, sym, ap, ◌∙◌, List, [], ◌∷◌, ◌++◌, some, All, All-map_of, length, max,
  map, u32_mod, arith,
}
use sni_lua.Controls.{Control, Controls, slider, color, select}
use sni_lua.Host.Panel.Calls.{
  Call, call, calls, Declares, a_header, a_label, a_checkbox, a_slider, a_text, a_color, a_select,
  a_button, DeclaresAll, done, more,
}
use sni_lua.Host.Panel.Keys.{Seeded, Seeded-doc, DistinctIds, persist_controls-Seeded}
use sni_lua.Host.Panel.{
  and_then, unwrap_or, append, clamp_between, drained, entry, persist_controls, seed, ui_header,
  ui_label, ui_checkbox, ui_slider, ui_text, ui_color, ui_select, ui_button,
}
use sni_lua.Host.Values.{Json, Reads}
use sni_lua.Runtime.Store.{Store}

module _ (fl : Float) where
  -- A value that a control can have: a slider's is in its bounds and has a JSON form, a color has 32
  -- bits, and a choice is one of the options, or the first.
  abbrev pub IsSettled : (fl.F → Type 0) → Control fl.F → Type 0
  IsSettled IsFinite (slider i l lo hi v) = (clamp_between fl lo hi v ≡ some v) × IsFinite v
  IsSettled IsFinite (color i l v) = v < u32_mod
  IsSettled IsFinite (select i l options v) = v ≤ max (length options) 1 - 1
  IsSettled IsFinite _ = Unit {0}

module _ (fl : Float) (js : Json fl.F) {IsFinite : fl.F → Type 0} (reads : Reads js IsFinite) where
  call-drained :
      (s : Store js.J) {d : Call fl.F} {c : Control fl.F} (cs : Controls fl.F)
      → Declares d c
      → IsSettled fl IsFinite c
      → Seeded fl js s c
      → call fl js s d cs ≡ some (append (drained c) cs)
  unfolding call ui_header ui_label ui_checkbox ui_slider ui_text ui_color ui_select ui_button entry
  call-drained s cs (a_header t) v h = refl
  call-drained s cs (a_label t) v h = refl
  call-drained s cs (a_checkbox i l d b) v h = rw h (rw (reads.bools b) refl)
  call-drained s cs (a_slider i l lo hi d x) v h =
      let e : clamp_between fl lo hi
            (unwrap_or (and_then (seed fl js s i) js.as_f64) (unwrap_or d lo))
          ≡ some x =
        rw h (rw (reads.floats x v.1) v.0) in
      rw (e, ui_slider) refl
  call-drained s cs (a_text i l d x) v h = rw h (rw (reads.strs x) refl)
  call-drained s cs (a_color i l d x) v h =
      rw h (rw (reads.nats x) (ap (λ n. some (append (color i l n) cs)) (omega (arith, v))))
  call-drained s cs (a_select i l options d x) v h =
      rw h
        (rw (reads.nats x) (ap (λ n. some (append (select i l options n) cs)) (omega (arith, v))))
  call-drained s cs (a_button i l pressed) v h = refl

  calls-drained :
      (s : Store js.J) {ds : List (Call fl.F)} {ps : List (Control fl.F)} (cs : Controls fl.F)
      → DeclaresAll ds ps
      → All (IsSettled fl IsFinite) ps
      → All (Seeded fl js s) ps
      → calls fl js s ds cs ≡ some (record { items = cs.items ++ map drained ps })
  unfolding calls
  calls-drained s cs done v h = ap (λ l. some (record { items = l })) (sym (append-nil cs.items))
  calls-drained s cs (more {c} {cs = ps} d rest) v h =
      rw (call-drained s cs d v.0 h.0, calls)
        (calls-drained s (append (drained c) cs) rest v.1 h.1
          ∙ ap (λ l. some (record { items = l }))
              (append_assoc cs.items (drained c ∷ []) (map drained ps)))

  -- A script declares a panel, and by the time it is persisted each slider has a finite value, which
  -- clamping to its bounds leaves as it is, each color 32 bits, and each choice one of its options, or
  -- the first; the other controls have any values. If no id was declared twice among the controls with
  -- a value, and if JSON reads back each boolean, text, natural number, map and finite float that it is
  -- made of, then the same declarations, in a store with the document that this left, give back each
  -- control with the value it had, whatever their defaults; a button comes back not pressed.
  pub reload-restores :
      (s s' : Store js.J) (ds : List (Call fl.F)) (ps : Controls fl.F)
      → DeclaresAll ds ps.items
      → All (IsSettled fl IsFinite) ps.items
      → DistinctIds fl js ps.items
      → s'.doc ≡ (persist_controls fl js ps s).doc
      → calls fl js s' ds (record { items = [] }) ≡ some (record { items = map drained ps.items })
  reload-restores s s' ds ps d v u e =
      calls-drained s' (record { items = [] }) d v
        (All-map_of _ _ (λ c. Seeded-doc fl js (persist_controls fl js ps s) s' c e) ps.items
          (persist_controls-Seeded fl js reads s ps u))
