-- ===== src/Host/Panel/Session.antt =====
-- A session of a panel: it is declared, and then the script and the user work on it in any order.
use sni_lua.Common.Float.{Float, IsOrdered}
use sni_lua.Common.{
  ℕ, zero, suc, ◌-◌, ◌≤◌, ◌<◌, ◌≡◌, refl, List, [], ◌∷◌, Option, none, some, All, All-map_of, ◌||◌,
  true, length, max, Str, u32_mod, arith,
}
use sni_lua.Controls.{Control, Controls}
use sni_lua.Host.Panel.Between.{IsBetween, IsInBounds, IsInRange-IsInBounds, clamp_between-kept}
use sni_lua.Host.Panel.Calls.{
  Call, calls, Declares, a_header, a_label, a_checkbox, a_slider, a_text, a_color, a_select,
  a_button, DeclaresAll, done, more,
}
use sni_lua.Host.Panel.Declared.{Fits, calls-append}
use sni_lua.Host.Panel.{clamp_between, with_first, set_value, ui_set, ui_pressed}
use sni_lua.Host.Panel.Valid.{
  IsInRange, Kept, KeptAll, set_value-Kept, with_first-KeptAll, drain-KeptAll,
}
use sni_lua.Host.Panel.Widgets.{
  Edit, ticks, drags, types, picks, chooses, clicks, edit, edit_at, picked, chosen, dragged,
}
use sni_lua.Host.Values.{Json, Value, Numbers}
use sni_lua.Runtime.Store.{Store}

-- what the script and the user do to a panel
pub data Op (F : Type 0) : Type 0 where
  sets : Str → Value F → Op F
  drains : Str → Op F
  edits : ℕ → Edit F → Op F

module _ (fl : Float) (num : Numbers fl.F) (drag : (lo hi x : fl.F) → fl.F) where
  unfoldable pub step : Op fl.F → Controls fl.F → Option (Controls fl.F)
  unfolding ui_set ui_pressed edit_at
  step (sets key v) cs = ui_set fl num key v cs
  step (drains key) cs = some (ui_pressed cs key).0
  step (edits n e) cs = some (record { items = edit_at drag n e cs.items })

  unfoldable pub run : List (Op fl.F) → Controls fl.F → Option (Controls fl.F)
  unfolding step
  run [] cs = some cs
  run (op ∷ ops) cs = elim (step op cs) [ none ↦ none | some ds ↦ run ops ds ]

  -- the script declares its panel, and then the session runs
  unfoldable pub session :
      (js : Json fl.F) → Store js.J → List (Call fl.F) → List (Op fl.F) → Option (Controls fl.F)
  unfolding calls run
  session js s ds ops = elim (calls fl js s ds (record { items = [] })) [
    | none ↦ none
    | some cs ↦ run ops cs
  ]

module _ (fl : Float) (ord : IsOrdered fl) where
  -- what egui documents of a slider with bounds in an order: its value is kept between them
  abbrev pub StaysInBounds : ((lo hi x : fl.F) → fl.F) → Type 0
  StaysInBounds drag =
      (lo hi x : fl.F)
      → (fl.gt (fl.max lo hi) (fl.min lo hi) || fl.eq (fl.min lo hi) (fl.max lo hi)) ≡ true
      → IsBetween fl (fl.min lo hi) (fl.max lo hi) (drag lo hi x)

  -- what egui documents of a color: each channel is a byte
  abbrev pub IsByteEdit : Edit fl.F → Type 0
  IsByteEdit (picks r g b a) = (r < 256) × (g < 256) × (b < 256) × (a < 256)
  IsByteEdit _ = Unit {0}

  picked-lt : (e : Edit fl.F) (v : ℕ) → IsByteEdit e → v < u32_mod → picked e v < u32_mod
  picked-lt (picks r g b a) v h k = omega arith
  picked-lt (ticks b) v h k = k
  picked-lt (drags x) v h k = k
  picked-lt (types s) v h k = k
  picked-lt (chooses n) v h k = k
  picked-lt clicks v h k = k

  chosen-le :
      (e : Edit fl.F) (options : List Str) (v : ℕ)
      → v ≤ max (length options) 1 - 1
      → chosen options e v ≤ max (length options) 1 - 1
  chosen-le (chooses n) options v k = ground arith
  chosen-le (picks r g b a) options v k = k
  chosen-le (ticks b) options v k = k
  chosen-le (drags x) options v k = k
  chosen-le (types s) options v k = k
  chosen-le clicks options v k = k

  abbrev pub IsByteOp : Op fl.F → Type 0
  IsByteOp (edits n e) = IsByteEdit e
  IsByteOp _ = Unit {0}

  abbrev items_of : Option (Controls fl.F) → Option (List (Control fl.F))
  items_of none = none
  items_of (some cs) = some cs.items

  items_of-KeptAll :
      (ks : List (Call fl.F)) (o : Option (List (Control fl.F)))
      → KeptAll fl ks o
      → KeptAll fl ks
          (items_of (elim o [ none ↦ none | some items ↦ some (record { items = items }) ]))
  items_of-KeptAll ks none h = h
  items_of-KeptAll ks (some items) h = h

  module _ (drag : (lo hi x : fl.F) → fl.F) (stays : StaysInBounds drag) where
    dragged_again :
        (e : Edit fl.F) (lo hi v : fl.F)
        → clamp_between fl lo hi v ≡ some v
        → clamp_between fl lo hi (dragged drag lo hi e v) ≡ some (dragged drag lo hi e v)
    dragged_again (drags x) lo hi v k =
        clamp_between-kept fl ord lo hi v (drag lo hi x) k (stays lo hi x)
    dragged_again (chooses n) lo hi v k = k
    dragged_again (picks r g b a) lo hi v k = k
    dragged_again (ticks b) lo hi v k = k
    dragged_again (types s) lo hi v k = k
    dragged_again clicks lo hi v k = k

    edit-Kept :
        (e : Edit fl.F) {k : Call fl.F} {c : Control fl.F}
        → IsByteEdit e
        → Declares k c
        → IsInRange fl c
        → Kept fl k (some (edit drag e c))
    unfolding edit
    edit-Kept e b (a_header t) h = (a_header t, h)
    edit-Kept e b (a_label t) h = (a_label t, h)
    edit-Kept e b (a_checkbox i l d v) h = (a_checkbox i l d _, h)
    edit-Kept e b (a_slider i l lo hi d v) h =
        (a_slider i l lo hi d _, (dragged_again e lo hi v h.0, tt))
    edit-Kept e b (a_text i l d v) h = (a_text i l d _, h)
    edit-Kept e b (a_color i l d v) h = (a_color i l d _, picked-lt e v b h)
    edit-Kept e b (a_select i l options d v) h = (a_select i l options d _, chosen-le e options v h)
    edit-Kept e b (a_button i l pressed) h = (a_button i l _, h)

    edit_at-KeptAll :
        (n : ℕ) (e : Edit fl.F) {ks : List (Call fl.F)} {cs : List (Control fl.F)}
        → IsByteEdit e
        → DeclaresAll ks cs
        → All (IsInRange fl) cs
        → KeptAll fl ks (some (edit_at drag n e cs))
    unfolding edit_at
    edit_at-KeptAll n e b done h = (done, h)
    edit_at-KeptAll zero e b (more d rest) h =
        let k = edit-Kept e b d h.0 in (more k.0 rest, (k.1, h.1))
    edit_at-KeptAll (suc n) e b (more d rest) h =
        let k = edit_at-KeptAll n e b rest h.1 in (more d k.0, (h.0, k.1))

    step-KeptAll :
        (num : Numbers fl.F) (op : Op fl.F) (ks : List (Call fl.F)) (cs : Controls fl.F)
        → IsByteOp op
        → DeclaresAll ks cs.items
        → All (IsInRange fl) cs.items
        → KeptAll fl ks (items_of (step fl num drag op cs))
    unfolding step ui_set ui_pressed
    step-KeptAll num (sets key v) ks cs b d h =
        items_of-KeptAll ks (with_first key (set_value fl num v) cs.items) (
          with_first-KeptAll fl ord key (set_value fl num v)
            (λ k c d h. set_value-Kept fl ord num v d h) d h)
    step-KeptAll num (drains key) ks cs b d h = drain-KeptAll fl ord key d h
    step-KeptAll num (edits n e) ks cs b d h = edit_at-KeptAll n e b d h

    then-KeptAll :
        (ks : List (Call fl.F)) (o : Option (Controls fl.F))
        (f : Controls fl.F → Option (Controls fl.F))
        → KeptAll fl ks (items_of o)
        → ((cs : Controls fl.F)
            → DeclaresAll ks cs.items
            → All (IsInRange fl) cs.items
            → KeptAll fl ks (items_of (f cs)))
        → KeptAll fl ks (items_of (elim o [ none ↦ none | some cs ↦ f cs ]))
    then-KeptAll ks none f k g = k
    then-KeptAll ks (some cs) f k g = g cs k.0 k.1

    run-KeptAll :
        (num : Numbers fl.F) (ops : List (Op fl.F)) (ks : List (Call fl.F)) (cs : Controls fl.F)
        → All IsByteOp ops
        → DeclaresAll ks cs.items
        → All (IsInRange fl) cs.items
        → KeptAll fl ks (items_of (run fl num drag ops cs))
    unfolding run
    run-KeptAll num [] ks cs b d h = (d, h)
    run-KeptAll num (op ∷ ops) ks cs b d h =
        then-KeptAll ks (step fl num drag op cs) (run fl num drag ops)
          (step-KeptAll num op ks cs b.0 d h) (λ ds. run-KeptAll num ops ks ds b.1)

    settled_of :
        (ks : List (Call fl.F)) (o : Option (Controls fl.F))
        → KeptAll fl ks (items_of o)
        → (cs : Controls fl.F) × (o ≡ some cs)
          × DeclaresAll ks cs.items
          × All (IsInRange fl) cs.items
    settled_of ks none k = absurd k
    settled_of ks (some cs) k = (cs, refl, k.0, k.1)

    -- A script declares its panel, from any store, and then the script and the user set, drain and
    -- edit controls in any order, with any values. If the lesser and the greater bound of each slider
    -- are in an order and each color's default has 32 bits, then nothing panics, and the panel is the one declared, control by control,
    -- with each value in its range: a slider's is a number from its lower bound to its upper one, or
    -- NaN, which a script may set; a color has 32 bits, a choice is one of the options (or 0 if there
    -- are none). What is asked of egui is that a dragged slider is kept between its bounds and that a
    -- channel is a byte; of `f64`, that its tests are those of IEEE 754.
    pub session-IsInRange :
        (num : Numbers fl.F) (js : Json fl.F) (s : Store js.J) (ks : List (Call fl.F))
        (ops : List (Op fl.F))
        → All (Fits fl) ks
        → All IsByteOp ops
        → (cs : Controls fl.F) × (session fl num drag js s ks ops ≡ some cs)
          × DeclaresAll ks cs.items
          × All (IsInBounds fl) cs.items
    unfolding session
    session-IsInRange num js s ks ops f b =
        let (new, e, d, v) = calls-append fl ord js s ks (record { items = [] }) f in
        let k = run-KeptAll num ops ks (record { items = new }) b d v in
        let (cs, q, kept, ranges) =
          settled_of ks (session fl num drag js s ks ops) (rw (e, session) k) in
        (cs, q, kept, All-map_of _ _ (IsInRange-IsInBounds fl ord) cs.items ranges)
