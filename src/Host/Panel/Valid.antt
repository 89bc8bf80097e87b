-- ===== src/Host/Panel/Valid.antt =====
-- A panel stays as declared, with values in their ranges, through any session, and no call panics.
use sni_lua.Common.Float.{Float, IsOrdered}
use sni_lua.Common.{
  ◌≡◌, refl, List, ◌∷◌, Option, none, some, All, Str, false, arith, Bool-cases, ◌||◌, Option-cases,
  inl, inr, if◌then◌else◌,
}
use sni_lua.Controls.{Control, has_id}
use sni_lua.Host.Panel.Calls.{
  Call, Declares, a_header, a_label, a_checkbox, a_slider, a_text, a_color, a_select, a_button,
  DeclaresAll, done, more,
}
use sni_lua.Host.Panel.{clamp, clamp_between, with_first, set_value, drain, drained}
use sni_lua.Host.Panel.Reload.{IsSettled}
use sni_lua.Host.Values.{Value, Numbers}

module _ (fl : Float) where
  -- values in range, infinities and NaN included
  abbrev pub IsInRange : Control fl.F → Type 0
  IsInRange = IsSettled fl (λ x. Unit {0})

  -- a control of the declared kind, id and bounds, with its value in range
  abbrev pub Kept : Call fl.F → Option (Control fl.F) → Type 0
  Kept k none = ⊥
  Kept k (some d) = Declares k d × IsInRange d

  abbrev pub KeptAll : List (Call fl.F) → Option (List (Control fl.F)) → Type 0
  KeptAll ks none = ⊥
  KeptAll ks (some ds) = DeclaresAll ks ds × All IsInRange ds

module _ (fl : Float) (ord : IsOrdered fl) where
  clamp_again : (lo hi x y : fl.F) → clamp fl lo hi x ≡ some y → clamp fl lo hi y ≡ some y
  unfolding clamp
  clamp_again lo hi x y h =
      ground (arith, ord.irreflexive lo, ord.irreflexive hi, ord.asymmetric hi lo, ord.equal lo hi)

  clamp_total :
      (lo hi x y z : fl.F) → clamp fl lo hi x ≡ some y → (w : fl.F) × (clamp fl lo hi z ≡ some w)
  unfolding clamp
  clamp_total lo hi x y z h = elim (Bool-cases (fl.gt hi lo || fl.eq lo hi)) [
    | inl e ↦ (if fl.gt lo z then lo else if fl.gt z hi then hi else z, rw e refl)
    | inr e ↦ let no : Path (Option fl.F) none (some y) = (rw e at h) in ground (arith, no)
  ]

  pub clamp_between_again :
      (lo hi x y : fl.F) → clamp_between fl lo hi x ≡ some y → clamp_between fl lo hi y ≡ some y
  unfolding clamp_between
  clamp_between_again lo hi = clamp_again (fl.min lo hi) (fl.max lo hi)

  pub clamp_between_total :
      (lo hi x y z : fl.F)
      → clamp_between fl lo hi x ≡ some y
      → (w : fl.F) × (clamp_between fl lo hi z ≡ some w)
  unfolding clamp_between
  clamp_between_total lo hi = clamp_total (fl.min lo hi) (fl.max lo hi)

  module _ (num : Numbers fl.F) where
    pub set_value-Kept :
        (v : Value fl.F) {k : Call fl.F} {c : Control fl.F}
        → Declares k c
        → IsInRange fl c
        → Kept fl k (set_value fl num v c)
    unfolding set_value
    set_value-Kept v (a_header t) h = (a_header t, h)
    set_value-Kept v (a_label t) h = (a_label t, h)
    set_value-Kept v (a_checkbox i l d old) h = (a_checkbox i l d _, h)
    set_value-Kept v (a_slider i l lo hi d old) h = elim (Option-cases (num.as_f64 v)) [
      | inl e ↦ rw (e, set_value) (a_slider i l lo hi d old, h)
      | inr (x, e) ↦
          let (y, q) = clamp_between_total lo hi old old x h.0 in
          rw (e, set_value)
            (rw (q, set_value) (a_slider i l lo hi d y, (clamp_between_again lo hi x y q, tt)))
    ]
    set_value-Kept v (a_text i l d old) h = (a_text i l d _, h)
    set_value-Kept v (a_color i l d old) h = (
      a_color i l d _,
      elim (Option-cases (num.as_u64 v)) [ inl e ↦ rw e h | inr (n, e) ↦ rw e (omega arith) ],
    )
    set_value-Kept v (a_select i l options d old) h = (
      a_select i l options d _,
      elim (Option-cases (num.as_u64 v)) [ inl e ↦ rw e h | inr (n, e) ↦ rw e (omega arith) ],
    )
    set_value-Kept v (a_button i l pressed) h = (a_button i l pressed, h)

  head-KeptAll :
      (k : Call fl.F) (ks : List (Call fl.F)) (o : Option (Control fl.F)) (cs : List (Control fl.F))
      → Kept fl k o
      → DeclaresAll ks cs
      → All (IsInRange fl) cs
      → KeptAll fl (k ∷ ks) (elim o [ none ↦ none | some d ↦ some (d ∷ cs) ])
  head-KeptAll k ks none cs h d v = absurd h
  head-KeptAll k ks (some c) cs h d v = (more h.0 d, (h.1, v))

  tail-KeptAll :
      (k : Call fl.F) (ks : List (Call fl.F)) (c : Control fl.F) (o : Option (List (Control fl.F)))
      → Declares k c
      → IsInRange fl c
      → KeptAll fl ks o
      → KeptAll fl (k ∷ ks) (elim o [ none ↦ none | some ds ↦ some (c ∷ ds) ])
  tail-KeptAll k ks c none d v h = absurd h
  tail-KeptAll k ks c (some ds) d v h = (more d h.0, (v, h.1))

  pub with_first-KeptAll :
      (key : Str) (f : Control fl.F → Option (Control fl.F))
      → ((k : Call fl.F) (c : Control fl.F) → Declares k c → IsInRange fl c → Kept fl k (f c))
      → {ks : List (Call fl.F)} {cs : List (Control fl.F)} → DeclaresAll ks cs
      → All (IsInRange fl) cs
      → KeptAll fl ks (with_first key f cs)
  unfolding with_first
  with_first-KeptAll key f keep done h = (done, h)
  with_first-KeptAll key f keep (more {call = k} {c} {rest = ks} {cs} d rest) h =
      elim (Bool-cases (has_id key c)) [
        | inl e ↦ rw e (head-KeptAll k ks (f c) cs (keep k c d h.0) rest h.1)
        | inr e ↦ rw e (
            tail-KeptAll k ks c (with_first key f cs) d h.0
              (with_first-KeptAll key f keep rest h.1))
      ]

  drained-Kept :
      {k : Call fl.F} {c : Control fl.F}
      → Declares k c
      → IsInRange fl c
      → Kept fl k (some (drained c))
  drained-Kept (a_header t) h = (a_header t, h)
  drained-Kept (a_label t) h = (a_label t, h)
  drained-Kept (a_checkbox i l d v) h = (a_checkbox i l d v, h)
  drained-Kept (a_slider i l lo hi d v) h = (a_slider i l lo hi d v, h)
  drained-Kept (a_text i l d v) h = (a_text i l d v, h)
  drained-Kept (a_color i l d v) h = (a_color i l d v, h)
  drained-Kept (a_select i l options d v) h = (a_select i l options d v, h)
  drained-Kept (a_button i l pressed) h = (a_button i l false, h)

  pub drain-KeptAll :
      (key : Str) {ks : List (Call fl.F)} {cs : List (Control fl.F)}
      → DeclaresAll ks cs
      → All (IsInRange fl) cs
      → KeptAll fl ks (some (drain key cs).0)
  unfolding drain
  drain-KeptAll key done h = (done, h)
  drain-KeptAll key (more {c} d rest) h = elim (Bool-cases (has_id key c)) [
    | inl e ↦ let k = drained-Kept d h.0 in rw e (more k.0 rest, (k.1, h.1))
    | inr e ↦ let k = drain-KeptAll key rest h.1 in rw e (more d k.0, (h.0, k.1))
  ]
