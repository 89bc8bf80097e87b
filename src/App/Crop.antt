-- ===== src/App/Crop.antt =====
-- crates/sni-lua-app/src/main.rs, `capture_uv_rect`: the part of a captured frame that is shown.
use sni_lua.Common.Float.{Float}
use sni_lua.Common.{
  ℕ, ◌+◌, ◌-◌, ◌≤◌, ◌<◌, ◌≡◌, refl, ap, sym, ◌∙◌, arith, false, ◌&&◌, ◌||◌, if◌then◌else◌, ltb,
  ◌==◌, min, max, str, str_eq, subst, Bool-cases, inl, inr,
}
use sni_lua.Config.{Config}
use sni_lua.Render.{Canvas}

-- a rectangle by its sides
pub record Sides (F : Type 0) : Type 0 where
  pub left : F
  pub top : F
  pub right : F
  pub bottom : F

module _ (fl : Float) where
  -- a crop of nothing is made one pixel wide
  unfoldable pub not_empty : (left right frame : fl.F) → fl.F × fl.F
  not_empty left right frame =
      if fl.gt left right || fl.eq right left
      then (left, fl.min (fl.add left (fl.of_nat 1)) frame)
      else (left, right)

  -- the crop of one side of length `w`, by the pixels to leave out at its ends
  unfoldable pub crop_span : (w lo hi : ℕ) → fl.F × fl.F
  unfolding not_empty
  crop_span w lo hi =
      let frame = fl.of_nat (max w 1) in
      not_empty (fl.of_nat (min lo (w - 1))) (fl.sub frame (fl.of_nat (min hi (w - 1)))) frame

  -- the larger side of the crop, cut to the shape of the canvas
  unfoldable pub cut_to_aspect : Canvas fl.F → Sides fl.F → Sides fl.F
  cut_to_aspect canvas s =
      let zero = fl.of_nat 0 in
      let half = fl.lit 1 2 in
      let target = fl.div canvas.w canvas.h in
      let crop_w = fl.sub s.right s.left in
      let crop_h = fl.sub s.bottom s.top in
      let current = fl.div crop_w crop_h in
      let dx = fl.mul (fl.sub crop_w (fl.mul crop_h target)) half in
      let dy = fl.mul (fl.sub crop_h (fl.div crop_w target)) half in
      if fl.gt crop_w zero && (fl.gt crop_h zero && fl.gt target zero)
      then (if fl.gt current target
          then record s { left = fl.add s.left dx; right = fl.sub s.right dx }
          else if fl.gt target current
          then record s { top = fl.add s.top dy; bottom = fl.sub s.bottom dy }
          else s)
      else s

  -- the sides in parts of the frame
  unfoldable pub scaled_to : (w h : ℕ) → Sides fl.F → Sides fl.F
  scaled_to w h s = record {
    left = fl.div s.left (fl.of_nat (max w 1));
    top = fl.div s.top (fl.of_nat (max h 1));
    right = fl.div s.right (fl.of_nat (max w 1));
    bottom = fl.div s.bottom (fl.of_nat (max h 1));
  }

  unfoldable pub capture_uv_rect : Config fl.F → (w h : ℕ) → Canvas fl.F → Sides fl.F
  unfolding crop_span cut_to_aspect scaled_to str_eq
  capture_uv_rect c w h canvas =
      let (l, r) = crop_span w c.capture_crop_left c.capture_crop_right in
      let (t, b) = crop_span h c.capture_crop_top c.capture_crop_bottom in
      let s : Sides fl.F = record { left = l; top = t; right = r; bottom = b } in
      scaled_to w h (
        if str_eq c.capture_crop_mode (str "aspect") && fl.gt canvas.h (fl.of_nat 0)
        then cut_to_aspect canvas s
        else s)

-- Natural numbers up to a bound are floats, and the operations on them are exact, as those of `f32` are
-- up to 2 ^ 24.
pub record IsExact (fl : Float) (bound : ℕ) : Type 0 where
  pub gt : (a b : ℕ) → a ≤ bound → b ≤ bound → fl.gt (fl.of_nat a) (fl.of_nat b) ≡ ltb b a
  pub eq : (a b : ℕ) → a ≤ bound → b ≤ bound → fl.eq (fl.of_nat a) (fl.of_nat b) ≡ (a == b)
  pub sub : (a b : ℕ) → b ≤ a → a ≤ bound → fl.sub (fl.of_nat a) (fl.of_nat b) ≡ fl.of_nat (a - b)
  pub add : (a b : ℕ) → a + b ≤ bound → fl.add (fl.of_nat a) (fl.of_nat b) ≡ fl.of_nat (a + b)
  pub min :
      (a b : ℕ) → a ≤ bound → b ≤ bound → fl.min (fl.of_nat a) (fl.of_nat b) ≡ fl.of_nat (min a b)

module _ (fl : Float) {bound : ℕ} (ex : IsExact fl bound) where
  -- a part of a side, not empty and within it
  abbrev pub IsSpan : ℕ → fl.F × fl.F → Type 0
  IsSpan w (l, r) =
      (a : ℕ) × (b : ℕ) × (a < b) × (b ≤ max w 1) × (l ≡ fl.of_nat a) × (r ≡ fl.of_nat b)

  not_empty-IsSpan :
      (w a b : ℕ)
      → max w 1 ≤ bound
      → a < max w 1
      → b ≤ max w 1
      → IsSpan w (not_empty fl (fl.of_nat a) (fl.of_nat b) (fl.of_nat (max w 1)))
  unfolding not_empty
  not_empty-IsSpan w a b le la lb =
      let gt = ex.gt a b (omega (arith, le, la)) (omega (arith, le, lb)) in
      let eq = ex.eq b a (omega (arith, le, lb)) (omega (arith, le, la)) in
      let add = ex.add a 1 (omega (arith, le, la)) in
      let lowest = ex.min (a + 1) (max w 1) (omega (arith, le, la)) le in
      elim (Bool-cases (ltb b a || b == a)) [
        | inl e ↦ (
          a,
          a + 1,
          omega arith,
          omega (arith, la),
          rw (gt, eq, e) refl,
          rw (gt, eq, e)
              (ap (λ x. fl.min x (fl.of_nat (max w 1))) add
                ∙ lowest
                ∙ ap fl.of_nat (omega (arith, la))),
        )
        | inr e ↦ (a, b, ground (arith, e), lb, rw (gt, eq, e) refl, rw (gt, eq, e) refl)
      ]

  crop_span-IsSpan : (w lo hi : ℕ) → max w 1 ≤ bound → IsSpan w (crop_span fl w lo hi)
  unfolding crop_span
  crop_span-IsSpan w lo hi le =
      let a = min lo (w - 1) in
      let h = min hi (w - 1) in
      subst (λ r. IsSpan w (not_empty fl (fl.of_nat a) r (fl.of_nat (max w 1))))
        (sym (ex.sub (max w 1) h (omega arith) le))
        (not_empty-IsSpan w a (max w 1 - h) le (omega arith) (omega arith))

  -- Whatever the crop's settings and the captured frame, without the cut to the canvas's shape, what is
  -- shown of the frame is a rectangle of whole pixels that lies in the frame and is not empty, in parts
  -- of the frame's sides. The frame's sides are asked to be numbers that the floats hold exactly.
  pub capture_uv_rect-IsSpan :
      (c : Config fl.F) (w h : ℕ) (canvas : Canvas fl.F)
      → max w 1 ≤ bound
      → max h 1 ≤ bound
      → str_eq c.capture_crop_mode (str "aspect") ≡ false
      → (s : Sides fl.F) × (capture_uv_rect fl c w h canvas ≡ scaled_to fl w h s)
        × IsSpan w (s.left, s.right)
        × IsSpan h (s.top, s.bottom)
  unfolding capture_uv_rect
  capture_uv_rect-IsSpan c w h canvas lw lh e =
      let (l, r) = crop_span fl w c.capture_crop_left c.capture_crop_right in
      let (t, b) = crop_span fl h c.capture_crop_top c.capture_crop_bottom in
      (
        record { left = l; top = t; right = r; bottom = b },
        rw e refl,
        crop_span-IsSpan w c.capture_crop_left c.capture_crop_right lw,
        crop_span-IsSpan h c.capture_crop_top c.capture_crop_bottom lh,
      )
