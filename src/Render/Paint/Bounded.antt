-- ===== src/Render/Paint/Bounded.antt =====
-- What painting a list can fail of, its order, and the size of what an arc paints.
use sni_lua.Common.Float.{Float}
use sni_lua.Common.{
  ℕ, zero, suc, ◌≤◌, ◌≡◌, refl, sym, ap, ◌∙◌, Bool, true, false, not, ◌&&◌, ◌||◌, List, [], ◌∷◌,
  ◌++◌, Option, none, some, length, arith, Bool-cases, inl, inr,
}
use sni_lua.Render.Paint.Commands.{paint_cmd, paint_cmds, gradient_polygon, arc_steps, arc_points}
use sni_lua.Render.Paint.Polygons.{
  radius_cap, round_rect_polygon, primitive, joined, union_from, union_shapes,
}
use sni_lua.Render.Paint.{Plane, Polygon, Geo}
use sni_lua.Render.Text.{Viewport, TextSizing, le}
use sni_lua.Render.{
  DrawCmd, gradient_rect, path, PathPrimitive, path_rect, path_round_rect, path_circle,
}

abbrev pub is_some : {A : Type 0} → Option A → Bool
is_some none = false
is_some (some a) = true

unfoldable pub all : {A : Type 0} → (A → Bool) → List A → Bool
all p [] = true
all p (x ∷ xs) = p x && all p xs

is_some-elim :
    {A B : Type 0} (o : Option A) (f : A → B)
    → is_some (elim o [ none ↦ none | some a ↦ some (f a) ]) ≡ is_some o
is_some-elim none f = refl
is_some-elim (some a) f = refl

is_some-bind :
    {A B : Type 0} (o : Option A) (f : A → Option B) (b : Bool)
    → ((a : A) → is_some (f a) ≡ b)
    → is_some (elim o [ none ↦ none | some a ↦ f a ]) ≡ (is_some o && b)
is_some-bind none f b h = refl
is_some-bind (some a) f b h = h a

module _ (fl : Float) (pl : Plane fl.F) (geo : Geo fl.F) where
  -- one of the sides is a number
  abbrev pub has_side : fl.F → fl.F → Bool
  has_side w h = fl.eq w w || fl.eq h h

  -- What IEEE 754 says of half the shorter side's length: it is a number from 0 on, unless both sides are
  -- NaN, since the minimum ignores one NaN.
  abbrev pub HasHalves : Type 0
  HasHalves = (w h : fl.F) → le fl (fl.of_nat 0) (radius_cap fl pl geo w h) ≡ has_side w h

  abbrev pub primitive_is_fit : PathPrimitive fl.F → Bool
  primitive_is_fit (path_round_rect x y w h radius) = has_side w h
  primitive_is_fit _ = true

  -- no rounded corner is asked of a shape whose sides are both NaN
  abbrev pub is_fit : DrawCmd fl.F → Bool
  is_fit (gradient_rect x y w h radius start end vertical shadow) =
      not (fl.gt radius (fl.of_nat 0)) || has_side w h
  is_fit (path shapes color fill thickness) = all primitive_is_fit shapes
  is_fit _ = true

module _ (fl : Float) (pl : Plane fl.F) (geo : Geo fl.F) (halves : HasHalves fl pl geo) where
  is_some-round_rect_polygon :
      (x y w h radius : fl.F)
      → is_some (round_rect_polygon fl pl geo x y w h radius) ≡ has_side fl pl geo w h
  unfolding round_rect_polygon
  is_some-round_rect_polygon x y w h radius =
      elim (Bool-cases (le fl (fl.of_nat 0) (radius_cap fl pl geo w h))) [
        | inl e ↦ rw (round_rect_polygon, e) (sym e ∙ halves w h)
        | inr e ↦ rw (round_rect_polygon, e) (sym e ∙ halves w h)
      ]

  is_some-primitive :
      (s : PathPrimitive fl.F) → is_some (primitive fl pl geo s) ≡ primitive_is_fit fl pl geo s
  unfolding primitive
  is_some-primitive (path_rect x y w h) = refl
  is_some-primitive (path_round_rect x y w h radius) = is_some-round_rect_polygon x y w h radius
  is_some-primitive (path_circle x y radius) = refl

  is_some-union_from :
      (so_far : Option (List (Polygon fl.F))) (shapes : List (PathPrimitive fl.F))
      → is_some (union_from fl pl geo so_far shapes) ≡ all (primitive_is_fit fl pl geo) shapes
  unfolding union_from all
  is_some-union_from none [] = refl
  is_some-union_from (some cur) [] = refl
  is_some-union_from so_far (s ∷ shapes) =
      is_some-bind (primitive fl pl geo s)
        (λ p. union_from fl pl geo (some (joined fl pl geo so_far p)) shapes)
        (all (primitive_is_fit fl pl geo) shapes)
        (λ p. is_some-union_from (some (joined fl pl geo so_far p)) shapes)
      ∙ ap (λ b. b && all (primitive_is_fit fl pl geo) shapes) (is_some-primitive s)

  is_some-gradient_polygon :
      (x y w h radius : fl.F)
      → is_some (gradient_polygon fl pl geo x y w h radius)
        ≡ (not (fl.gt radius (fl.of_nat 0)) || has_side fl pl geo w h)
  unfolding gradient_polygon
  is_some-gradient_polygon x y w h radius = elim (Bool-cases (fl.gt radius (fl.of_nat 0))) [
    | inl e ↦ rw (gradient_polygon, e) (is_some-round_rect_polygon x y w h radius)
    | inr e ↦ rw (gradient_polygon, e) refl
  ]

  is_some-paint_cmd :
      (vp : Viewport fl.F) (sizing : TextSizing fl.F) (cmd : DrawCmd fl.F)
      → is_some (paint_cmd fl pl geo vp sizing cmd) ≡ is_fit fl pl geo cmd
  unfolding paint_cmd
  is_some-paint_cmd vp sizing (gradient_rect x y w h radius start end vertical shadow) =
      is_some-elim (gradient_polygon fl pl geo x y w h radius) _
      ∙ is_some-gradient_polygon x y w h radius
  is_some-paint_cmd vp sizing (path shapes color fill thickness) =
      is_some-elim (union_shapes fl pl geo shapes) _ ∙ is_some-union_from none shapes
  is_some-paint_cmd vp sizing _ = refl

  pub is_some-paint_cmds :
      (vp : Viewport fl.F) (sizing : TextSizing fl.F) (cmds : List (DrawCmd fl.F))
      → is_some (paint_cmds fl pl geo vp sizing cmds) ≡ all (is_fit fl pl geo) cmds
  unfolding paint_cmds all
  is_some-paint_cmds vp sizing [] = refl
  is_some-paint_cmds vp sizing (cmd ∷ cmds) =
      is_some-bind (paint_cmd fl pl geo vp sizing cmd) _ (all (is_fit fl pl geo) cmds) (λ s.
        is_some-elim (paint_cmds fl pl geo vp sizing cmds) (λ rest. s ++ rest)
        ∙ is_some-paint_cmds vp sizing cmds)
      ∙ ap (λ b. b && all (is_fit fl pl geo) cmds) (is_some-paint_cmd vp sizing cmd)

module _ (fl : Float) (pl : Plane fl.F) (geo : Geo fl.F) where
  -- An arc is drawn with 2 to 360 segments, so with 361 points at most.
  pub arc_steps-IsBounded :
      (r start end : fl.F)
      → (2 ≤ arc_steps fl pl geo r start end) × (arc_steps fl pl geo r start end ≤ 360)
  unfolding arc_steps
  arc_steps-IsBounded r start end = (omega arith, omega arith)

  pub length-arc_points :
      (c : fl.F × fl.F) (r start end : fl.F) (steps left i : ℕ)
      → length (arc_points fl pl geo c r start end steps left i) ≡ left
  unfolding arc_points
  length-arc_points c r start end steps zero i = refl
  length-arc_points c r start end steps (suc left) i =
      ap suc (length-arc_points c r start end steps left (suc i))
