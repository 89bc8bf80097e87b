-- ===== src/Host/Panel/Between.antt =====
-- A slider's value and its bounds, told by the tests of `f64` alone.
use sni_lua.Common.Float.{Float, IsOrdered}
use sni_lua.Common.{
  ◌-◌, ◌≤◌, ◌<◌, ◌≡◌, refl, ap, ◌∙◌, if◌then◌else◌, Bool, true, false, ◌||◌, none, some, length,
  max, u32_mod, arith, ◌⊎◌, inl, inr, Bool-cases, some_injective,
}
use sni_lua.Controls.{Control, header, label, checkbox, slider, text, color, select, button}
use sni_lua.Host.Panel.Valid.{IsInRange}
use sni_lua.Host.Panel.{clamp, clamp_between}

-- what a clamped value that is the value itself tells of the tests
settled_tests :
    {A : Type 0} (o a b : Bool) (lo hi v : A)
    → (if o then some (if a then lo else if b then hi else v) else none) ≡ some v
    → (o ≡ true) × (a ≡ true → lo ≡ v) × (a ≡ false → b ≡ true → hi ≡ v)
settled_tests false a b lo hi v h = ground (arith, h)
settled_tests true true b lo hi v h = (refl, λ q. some_injective h, λ q. ground (arith, q))
settled_tests true false true lo hi v h = (refl, λ q. ground (arith, q), λ q p. some_injective h)
settled_tests true false false lo hi v h = (refl, λ q. ground (arith, q), λ q p. ground (arith, p))

module _ (fl : Float) where
  -- NaN, or a number from the lower bound to the upper one
  abbrev pub IsBetween : fl.F → fl.F → fl.F → Type 0
  IsBetween lo hi v =
      (fl.eq v v ≡ false)
      ⊎ (((fl.gt v lo || fl.eq lo v) ≡ true) × ((fl.gt hi v || fl.eq v hi) ≡ true))

  -- a value that a control can have: a slider's lies between its bounds, which may be given in either
  -- order, or is NaN
  abbrev pub IsInBounds : Control fl.F → Type 0
  IsInBounds (slider i l lo hi v) = IsBetween (fl.min lo hi) (fl.max lo hi) v
  IsInBounds (color i l v) = v < u32_mod
  IsInBounds (select i l options v) = v ≤ max (length options) 1 - 1
  IsInBounds _ = Unit {0}

  module _ (ord : IsOrdered fl) where
    not_outside :
        (lo hi v : fl.F)
        → clamp fl lo hi v ≡ some v
        → ((fl.gt hi lo || fl.eq lo hi) ≡ true) × (fl.gt lo v ≡ false) × (fl.gt v hi ≡ false)
    unfolding clamp
    not_outside lo hi v h =
        let (o, below, above) =
          settled_tests (fl.gt hi lo || fl.eq lo hi) (fl.gt lo v) (fl.gt v hi) lo hi v h in
        let low : fl.gt lo v ≡ false = elim (Bool-cases (fl.gt lo v)) [
          | inl e ↦ (ap (λ x. fl.gt x v) (below e)) ∙ ord.irreflexive v
          | inr e ↦ e
        ] in
        let high : fl.gt v hi ≡ false = elim (Bool-cases (fl.gt v hi)) [
          | inl e ↦ (ap (λ x. fl.gt v x) (above low e)) ∙ ord.irreflexive v
          | inr e ↦ e
        ] in
        (o, low, high)

    -- bounds in an order are no NaN
    bounds_numbers :
        (lo hi : fl.F)
        → (fl.gt hi lo || fl.eq lo hi) ≡ true
        → (fl.eq lo lo ≡ true) × (fl.eq hi hi ≡ true)
    bounds_numbers lo hi o = elim (Bool-cases (fl.gt hi lo)) [
      | inl e ↦ let (h, l) = ord.numbers hi lo (ground (arith, e)) in (l, h)
      | inr e ↦ ord.numbers lo hi (ground (arith, e, o))
    ]

    pub clamp-IsBetween : (lo hi v : fl.F) → clamp fl lo hi v ≡ some v → IsBetween lo hi v
    clamp-IsBetween lo hi v h =
        let (o, low, high) = not_outside lo hi v h in
        let (nl, nh) = bounds_numbers lo hi o in
        elim (Bool-cases (fl.eq v v)) [
          | inl n ↦ inr (
            ground (arith, low, ord.comparable lo v nl n),
            ground (arith, high, ord.comparable v hi n nh),
          )
          | inr nan ↦ inl nan
        ]

    -- a number is in no order with NaN
    nan_below : (x v : fl.F) → fl.eq v v ≡ false → fl.gt x v ≡ false
    nan_below x v nan = elim (Bool-cases (fl.gt x v)) [
      | inl e ↦ ground (arith, nan, (ord.numbers x v (ground (arith, e))).1)
      | inr e ↦ e
    ]

    nan_above : (x v : fl.F) → fl.eq v v ≡ false → fl.gt v x ≡ false
    nan_above x v nan = elim (Bool-cases (fl.gt v x)) [
      | inl e ↦ ground (arith, nan, (ord.numbers v x (ground (arith, e))).0)
      | inr e ↦ e
    ]

    le→not_gt : (x y : fl.F) → (fl.gt y x || fl.eq x y) ≡ true → fl.gt x y ≡ false
    le→not_gt x y h = elim (Bool-cases (fl.gt y x)) [
      | inl e ↦ ord.asymmetric y x e
      | inr e ↦ (ord.equal x y (ground (arith, e, h))).0
    ]

    pub IsBetween-clamp :
        (lo hi v : fl.F)
        → (fl.gt hi lo || fl.eq lo hi) ≡ true
        → IsBetween lo hi v
        → clamp fl lo hi v ≡ some v
    unfolding clamp
    IsBetween-clamp lo hi v o (inl nan) = rw (o, nan_below lo v nan, nan_above hi v nan) refl
    IsBetween-clamp lo hi v o (inr (a, b)) = rw (o, le→not_gt lo v a, le→not_gt v hi b) refl

    pub IsInRange-IsInBounds : (c : Control fl.F) → IsInRange fl c → IsInBounds c
    unfolding clamp_between
    IsInRange-IsInBounds (header t) h = tt
    IsInRange-IsInBounds (label t) h = tt
    IsInRange-IsInBounds (checkbox i l v) h = tt
    IsInRange-IsInBounds (slider i l lo hi v) h =
        clamp-IsBetween (fl.min lo hi) (fl.max lo hi) v h.0
    IsInRange-IsInBounds (text i l v) h = tt
    IsInRange-IsInBounds (color i l v) h = h
    IsInRange-IsInBounds (select i l options v) h = h
    IsInRange-IsInBounds (button i l pressed) h = tt

    -- a dragged value that is between the bounds is one that clamping leaves as it is
    pub clamp_between-kept :
        (lo hi v x : fl.F)
        → clamp_between fl lo hi v ≡ some v
        → ((fl.gt (fl.max lo hi) (fl.min lo hi) || fl.eq (fl.min lo hi) (fl.max lo hi)) ≡ true
            → IsBetween (fl.min lo hi) (fl.max lo hi) x)
        → clamp_between fl lo hi x ≡ some x
    unfolding clamp_between
    clamp_between-kept lo hi v x h b =
        let (o, _, _) = not_outside (fl.min lo hi) (fl.max lo hi) v h in
        IsBetween-clamp (fl.min lo hi) (fl.max lo hi) x o (b o)
