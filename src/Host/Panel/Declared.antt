-- ===== src/Host/Panel/Declared.antt =====
-- What the declaring calls leave, from any store: a corrupt seed is corrected, not kept.
use mathlib.Core.List.{append_assoc, append-nil}
use sni_lua.Common.Float.{Float, IsOrdered}
use sni_lua.Common.{
  ℕ, ◌%◌, ◌<◌, ◌≡◌, refl, sym, ap, ◌∙◌, List, [], ◌∷◌, ◌++◌, Option, none, some, All, true, false,
  u32_mod, arith, ◌||◌, if◌then◌else◌,
}
use sni_lua.Controls.{Control, Controls, header, label, slider}
use sni_lua.Host.Panel.Calls.{
  Call, heads, labels, checks, slides, writes, colors, selects, offers, call, calls, Declares,
  a_header, a_label, a_checkbox, a_slider, a_text, a_color, a_select, a_button, DeclaresAll, done,
  more,
}
use sni_lua.Host.Panel.{
  clamp, clamp_between, append, and_then, unwrap_or, seed, ui_header, ui_label, ui_checkbox,
  ui_slider, ui_text, ui_color, ui_select, ui_button,
}
use sni_lua.Host.Panel.Valid.{IsInRange, clamp_between_again}
use sni_lua.Host.Values.{Json}
use sni_lua.Runtime.Store.{Store}

module _ (fl : Float) where
  -- What mlua and the script see to: a color is a `u32`, and the bounds of a slider are in an order,
  -- which they are unless both are NaN.
  abbrev pub Fits : Call fl.F → Type 0
  Fits (slides i l lo hi d) =
      (fl.gt (fl.max lo hi) (fl.min lo hi) || fl.eq (fl.min lo hi) (fl.max lo hi)) ≡ true
  Fits (colors i l (some d)) = d < u32_mod
  Fits _ = Unit {0}

  clamp_between-Fits :
      (lo hi x : fl.F)
      → (fl.gt (fl.max lo hi) (fl.min lo hi) || fl.eq (fl.min lo hi) (fl.max lo hi)) ≡ true
      → (y : fl.F) × (clamp_between fl lo hi x ≡ some y)
  unfolding clamp_between clamp
  clamp_between-Fits lo hi x h = (
    (if fl.gt (fl.min lo hi) x
        then fl.min lo hi
        else if fl.gt x (fl.max lo hi)
        then fl.max lo hi
        else x),
    rw h refl,
  )

  seeded_color-lt :
      (o : Option ℕ) (d : ℕ)
      → d < u32_mod
      → unwrap_or (and_then o (λ v. some (v % u32_mod))) d < u32_mod
  seeded_color-lt none d h = h
  seeded_color-lt (some v) d h = omega arith

  module _ (ord : IsOrdered fl) (js : Json fl.F) (s : Store js.J) where
    -- one call appends one control, as declared and with its value in range
    call-appends :
        (k : Call fl.F) (cs : Controls fl.F)
        → Fits k
        → (c : Control fl.F) × (call fl js s k cs ≡ some (append c cs))
          × Declares k c
          × IsInRange fl c
    unfolding call ui_header ui_label ui_checkbox ui_slider ui_text ui_color ui_select ui_button
    call-appends (heads t) cs h = (header t, refl, a_header t, tt)
    call-appends (labels t) cs h = (label t, refl, a_label t, tt)
    call-appends (checks i l d) cs h = (_, refl, a_checkbox i l d _, tt)
    call-appends (slides i l lo hi d) cs h =
        let seeded = unwrap_or (and_then (seed fl js s i) js.as_f64) (unwrap_or d lo) in
        let (y, e) = clamp_between-Fits lo hi seeded h in
        (
          slider i l lo hi y,
          rw (e, ui_slider) refl,
          a_slider i l lo hi d y,
          (clamp_between_again fl ord lo hi seeded y e, tt),
        )
    call-appends (writes i l d) cs h = (_, refl, a_text i l d _, tt)
    call-appends (colors i l none) cs h = (
      _,
      refl,
      a_color i l none _,
      seeded_color-lt (and_then (seed fl js s i) js.as_u64) _ (omega arith),
    )
    call-appends (colors i l (some d)) cs h =
        (_, refl, a_color i l (some d) _, seeded_color-lt (and_then (seed fl js s i) js.as_u64) d h)
    call-appends (selects i l options d) cs h = (_, refl, a_select i l options d _, omega arith)
    call-appends (offers i l) cs h = (_, refl, a_button i l false, tt)

    pub calls-append :
        (ks : List (Call fl.F)) (cs : Controls fl.F)
        → All Fits ks
        → (new : List (Control fl.F)) × (calls fl js s ks cs
            ≡ some (record { items = cs.items ++ new }))
          × DeclaresAll ks new
          × All (IsInRange fl) new
    unfolding calls
    calls-append [] cs h =
        ([], ap (λ l. some (record { items = l })) (sym (append-nil cs.items)), done, tt)
    calls-append (k ∷ ks) cs h =
        let (c, e, d, v) = call-appends k cs h.0 in
        let (new, q, ds, vs) = calls-append ks (append c cs) h.1 in
        (
          c ∷ new,
          rw (e, calls)
              (q ∙ ap (λ l. some (record { items = l })) (append_assoc cs.items (c ∷ []) new)),
          more d ds,
          (v, vs),
        )
