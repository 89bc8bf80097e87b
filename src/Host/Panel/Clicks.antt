-- ===== src/Host/Panel/Clicks.antt =====
-- A click is delivered once.
use sni_lua.Common.{◌≡◌, refl, List, [], ◌∷◌, false, Bool-cases, inl, inr, none, some, find, Str}
use sni_lua.Controls.{
  Control, Controls, header, label, checkbox, slider, text, color, select, button, has_id, id,
}
use sni_lua.Host.Panel.{drain, drained, is_pressed, ui_pressed, ui_get, value_of}
use sni_lua.Host.Values.{nil}

module _ {F : Type 0} where
  has_id-drained : (key : Str) (c : Control F) → has_id key (drained c) ≡ has_id key c
  unfolding has_id id
  has_id-drained key (header t) = refl
  has_id-drained key (label t) = refl
  has_id-drained key (checkbox i l v) = refl
  has_id-drained key (slider i l lo hi v) = refl
  has_id-drained key (text i l v) = refl
  has_id-drained key (color i l v) = refl
  has_id-drained key (select i l options v) = refl
  has_id-drained key (button i l pressed) = refl

  drained-drained :
      (c : Control F)
      → (drained (drained c) ≡ drained c)
        × (is_pressed (drained c) ≡ false)
        × (value_of (drained c) ≡ value_of c)
  unfolding value_of
  drained-drained (header t) = (refl, refl, refl)
  drained-drained (label t) = (refl, refl, refl)
  drained-drained (checkbox i l v) = (refl, refl, refl)
  drained-drained (slider i l lo hi v) = (refl, refl, refl)
  drained-drained (text i l v) = (refl, refl, refl)
  drained-drained (color i l v) = (refl, refl, refl)
  drained-drained (select i l options v) = (refl, refl, refl)
  drained-drained (button i l pressed) = (refl, refl, refl)

  drain-drain :
      (key : Str) (cs : List (Control F)) → drain key (drain key cs).0 ≡ ((drain key cs).0, false)
  unfolding drain
  drain-drain key [] = refl
  drain-drain key (c ∷ cs) = elim (Bool-cases (has_id key c)) [
    | inl e ↦ rw e (
        rw (has_id-drained key c)
          (rw e (λ i. ((drained-drained c).0 i ∷ cs, (drained-drained c).1 i))))
    | inr e ↦ let again = drain-drain key cs in rw e (rw e (λ i. (c ∷ (again i).0, (again i).1)))
  ]

  find-drain :
      (key k : Str) (cs : List (Control F))
      → elim (find (has_id k) (drain key cs).0) [ none ↦ nil | some c ↦ value_of c ]
        ≡ elim (find (has_id k) cs) [ none ↦ nil | some c ↦ value_of c ]
  unfolding drain
  find-drain key k [] = refl
  find-drain key k (c ∷ cs) = elim (Bool-cases (has_id key c)) [
    | inl e ↦ elim (Bool-cases (has_id k c)) [
      | inl q ↦ rw e (rw (has_id-drained k c) (rw q (drained-drained c).2))
      | inr q ↦ rw e (rw (has_id-drained k c) (rw q refl))
    ]
    | inr e ↦ elim (Bool-cases (has_id k c)) [
      | inl q ↦ rw e (rw q refl)
      | inr q ↦ rw e (rw q (find-drain key k cs))
    ]
  ]

  -- Asking whether a button was pressed drains its latch: asked again before the next click the answer
  -- is no and the panel stays as it is. Nothing that the script reads by `ui.get` is changed.
  pub ui_pressed-once :
      (cs : Controls F) (key k : Str)
      → (ui_pressed (ui_pressed cs key).0 key ≡ ((ui_pressed cs key).0, false))
        × (ui_get (ui_pressed cs key).0 k ≡ ui_get cs k)
  unfolding ui_pressed ui_get
  ui_pressed-once cs key k = (
    λ i. (record { items = (drain-drain key cs.items i).0 }, (drain-drain key cs.items i).1),
    find-drain key k cs.items,
  )
