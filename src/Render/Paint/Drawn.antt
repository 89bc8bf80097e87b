-- ===== src/Render/Paint/Drawn.antt =====
-- What is painted of each command of a list, and in which order.
use sni_lua.Common.Float.{Float}
use sni_lua.Common.{
  ◌≡◌, refl, sym, Bool, true, false, List, [], ◌∷◌, ◌++◌, map, Option, none, some, if◌then◌else◌,
  ◌⊎◌, ltb, length, inl, inr,
}
use sni_lua.Render.Paint.Bounded.{is_some, all, HasHalves, is_fit, is_some-paint_cmds}
use sni_lua.Render.Paint.Commands.{
  if_filled, meshes, paint_gradient_line, gradient_polygon, fill_union, outline_union,
  paint_rect_shape, paint_poly, paint_arc, paint_cmd, paint_cmds, paint,
}
use sni_lua.Render.Paint.Polygons.{polygon_mesh, union_shapes}
use sni_lua.Render.Paint.{
  Plane, Polygon, Geo, Stroke, Shape, filled, rect as rect_shape, line_segment, circle_stroke,
  closed_line, line as open_line, stroke,
}
use sni_lua.Render.Text.{Viewport, TextSizing, pt, paint_text}
use sni_lua.Render.{
  Color, DrawList, DrawCmd, text, rect, round_rect, line, pixel, circle, triangle, poly,
  gradient_line, gradient_rect, path, arc, PathPrimitive,
}

-- the stroke of a shape
abbrev pub stroke_of : {F : Type 0} → Shape F → Option (Stroke F)
stroke_of (rect_shape r rounding fill s) = some s
stroke_of (line_segment a b s) = some s
stroke_of (circle_stroke c r s) = some s
stroke_of (closed_line points s) = some s
stroke_of (open_line points s) = some s
stroke_of _ = none

module _ (fl : Float) (pl : Plane fl.F) (geo : Geo fl.F) (vp : Viewport fl.F)
    (sizing : TextSizing fl.F) where
  -- The last shape is drawn with a color, and a width that is scaled and is a pixel at least.
  abbrev pub EndsIn : Color → fl.F → List (Shape fl.F) → Type 0
  EndsIn color thickness s =
      (before : List (Shape fl.F)) × (shape : Shape fl.F) × (s ≡ before ++ shape ∷ [])
      × (stroke_of shape
          ≡ some
              (record { width = fl.max (fl.mul thickness vp.scale) (fl.of_nat 1); color = color }))

  -- what the shapes of a command have of it
  abbrev pub Shows : DrawCmd fl.F → List (Shape fl.F) → Type 0
  Shows (text x y label color scale font bg outline align valign) s =
      s ≡ map filled (paint_text fl vp x y label color scale font sizing bg outline align valign)
  Shows (rect x y w h color fill thickness shadow) s = EndsIn color thickness s
  Shows (round_rect x y w h radius color fill thickness shadow) s = EndsIn color thickness s
  Shows (line x1 y1 x2 y2 color thickness) s = EndsIn color thickness s
  Shows (pixel x y color) s =
      (size : fl.F × fl.F) × (s
        ≡ filled (record { min = pt fl vp x y; size = size; color = color }) ∷ [])
  Shows (circle x y radius color fill thickness) s = EndsIn color thickness s
  Shows (triangle x1 y1 x2 y2 x3 y3 color fill thickness) s = EndsIn color thickness s
  Shows (poly points closed color fill thickness) s =
      ((ltb (length points) 2 ≡ true) × (s ≡ [])) ⊎ EndsIn color thickness s
  Shows (gradient_line x1 y1 x2 y2 start end thickness) s = (shape : Shape fl.F) × (s ≡ shape ∷ [])
  Shows (gradient_rect x y w h radius start end vertical shadow) s =
      (p : Polygon fl.F) × (before : List (Shape fl.F)) × (gradient_polygon fl pl geo x y w h radius
        ≡ some p)
      × (s ≡ before ++ meshes fl pl geo (polygon_mesh fl pl geo vp p start end vertical))
  Shows (path shapes color fill thickness) s =
      (u : List (Polygon fl.F)) × (union_shapes fl pl geo shapes ≡ some u)
      × (s
          ≡ if_filled fl pl geo fill (fill_union fl pl geo vp u)
            ++ if_filled fl pl geo color (outline_union fl pl geo vp u thickness))
  Shows (arc x y radius start_deg end_deg color fill thickness) s = EndsIn color thickness s

  -- the shapes of a list are those of its commands, command by command
  abbrev pub ShowsAll : List (DrawCmd fl.F) → List (Shape fl.F) → Type 0
  ShowsAll [] shapes = shapes ≡ []
  ShowsAll (cmd ∷ cmds) shapes =
      (s : List (Shape fl.F)) × (rest : List (Shape fl.F)) × (shapes ≡ s ++ rest)
      × Shows cmd s
      × ShowsAll cmds rest

  -- what is said of the shapes, if there are any
  abbrev OnShapes : (List (Shape fl.F) → Type 0) → Option (List (Shape fl.F)) → Type 0
  OnShapes P none = Unit {0}
  OnShapes P (some s) = P s

  gradient_shown :
      (o : Option (Polygon fl.F)) (x y w h radius : fl.F) (start end : Color) (vertical : Bool)
      (before : List (Shape fl.F))
      → gradient_polygon fl pl geo x y w h radius ≡ o
      → OnShapes
          (λ s.
            (p : Polygon fl.F) × (b : List (Shape fl.F)) × (gradient_polygon fl pl geo x y w h
                radius
              ≡ some p)
            × (s ≡ b ++ meshes fl pl geo (polygon_mesh fl pl geo vp p start end vertical)))
          (elim o [
            | none ↦ none
            | some p ↦
                some (before ++ meshes fl pl geo (polygon_mesh fl pl geo vp p start end vertical))
          ])
  gradient_shown none x y w h radius start end vertical before e = tt
  gradient_shown (some p) x y w h radius start end vertical before e = (p, before, e, refl)

  path_shown :
      (o : Option (List (Polygon fl.F))) (shapes : List (PathPrimitive fl.F))
      (color fill : Option Color) (thickness : fl.F)
      → union_shapes fl pl geo shapes ≡ o
      → OnShapes (Shows (path shapes color fill thickness)) (elim o [
        | none ↦ none
        | some u ↦ some (
            if_filled fl pl geo fill (fill_union fl pl geo vp u)
            ++ if_filled fl pl geo color (outline_union fl pl geo vp u thickness))
      ])
  path_shown none shapes color fill thickness e = tt
  path_shown (some u) shapes color fill thickness e = (u, e, refl)

  poly_shown :
      (b closed : Bool) (points p : List (fl.F × fl.F)) (color : Color) (thickness : fl.F)
      (before : List (Shape fl.F))
      → ltb (length points) 2 ≡ b
      → let st = stroke fl vp thickness color in
        let s : List (Shape fl.F) =
          if b
          then []
          else if closed
          then before ++ closed_line p st ∷ []
          else open_line p st ∷ [] in
        ((ltb (length points) 2 ≡ true) × (s ≡ [])) ⊎ EndsIn color thickness s
  poly_shown true closed points p color thickness before e = inl (e, refl)
  poly_shown false true points p color thickness before e = inr (before, _, refl, refl)
  poly_shown false false points p color thickness before e = inr ([], _, refl, refl)

  one_shape :
      (b : Bool) (a m : Shape fl.F)
      → (shape : Shape fl.F) × ((if b then a ∷ [] else m ∷ []) ≡ shape ∷ [])
  one_shape true a m = (a, refl)
  one_shape false a m = (m, refl)

  paint_cmd-Shows : (cmd : DrawCmd fl.F) → OnShapes (Shows cmd) (paint_cmd fl pl geo vp sizing cmd)
  unfolding paint_cmd paint_rect_shape paint_gradient_line paint_poly paint_arc
  paint_cmd-Shows (text x y label color scale font bg outline align valign) = refl
  paint_cmd-Shows (rect x y w h color fill thickness shadow) = (_, _, refl, refl)
  paint_cmd-Shows (round_rect x y w h radius color fill thickness shadow) = (_, _, refl, refl)
  paint_cmd-Shows (line x1 y1 x2 y2 color thickness) = ([], _, refl, refl)
  paint_cmd-Shows (pixel x y color) = (_, refl)
  paint_cmd-Shows (circle x y radius color fill thickness) = (_, _, refl, refl)
  paint_cmd-Shows (triangle x1 y1 x2 y2 x3 y3 color fill thickness) = (_, _, refl, refl)
  paint_cmd-Shows (poly points closed color fill thickness) =
      poly_shown (ltb (length points) 2) closed points _ color thickness _ refl
  paint_cmd-Shows (gradient_line x1 y1 x2 y2 start end thickness) = one_shape _ _ _
  paint_cmd-Shows (gradient_rect x y w h radius start end vertical shadow) =
      gradient_shown (gradient_polygon fl pl geo x y w h radius) x y w h radius start end vertical _
        refl
  paint_cmd-Shows (path shapes color fill thickness) =
      path_shown (union_shapes fl pl geo shapes) shapes color fill thickness refl
  paint_cmd-Shows (arc x y radius start_deg end_deg color fill thickness) = (_, _, refl, refl)

  paint_cmds-ShowsAll :
      (cmds : List (DrawCmd fl.F)) → OnShapes (ShowsAll cmds) (paint_cmds fl pl geo vp sizing cmds)
  unfolding paint_cmds
  paint_cmds-ShowsAll [] = refl
  paint_cmds-ShowsAll (cmd ∷ cmds) =
      both (paint_cmd fl pl geo vp sizing cmd) (paint_cmds fl pl geo vp sizing cmds)
        (paint_cmd-Shows cmd) (paint_cmds-ShowsAll cmds)
    where
      both :
          (o q : Option (List (Shape fl.F)))
          → OnShapes (Shows cmd) o
          → OnShapes (ShowsAll cmds) q
          → OnShapes (ShowsAll (cmd ∷ cmds)) (elim o [
            | none ↦ none
            | some s ↦ elim q [ none ↦ none | some rest ↦ some (s ++ rest) ]
          ])
      both none q h k = tt
      both (some s) none h k = tt
      both (some s) (some rest) h k = (s, rest, refl, h, k)

  -- how painting a list ends
  pub data Ends (cmds : List (DrawCmd fl.F)) : Option (List (Shape fl.F)) → Type 0 where
    panics : all (is_fit fl pl geo) cmds ≡ false → Ends cmds none
    paints :
        {shapes : List (Shape fl.F)}
        → all (is_fit fl pl geo) cmds ≡ true
        → ShowsAll cmds shapes
        → Ends cmds (some shapes)

  ends :
      (cmds : List (DrawCmd fl.F)) (o : Option (List (Shape fl.F)))
      → is_some o ≡ all (is_fit fl pl geo) cmds
      → OnShapes (ShowsAll cmds) o
      → Ends cmds o
  ends cmds none e h = panics (sym e)
  ends cmds (some shapes) e h = paints (sym e) h

  -- Painting a list panics if a rounded rectangle of a path, or one with a gradient and a positive
  -- radius, has NaN for both its sides, and else it paints the shapes of each command, in the order of
  -- the commands. The last shape of a rectangle, a line, a circle, a triangle, an arc and a polygon of
  -- two points or more has the command's color and its thickness, scaled and one pixel at least; a
  -- polygon of fewer points has none. A pixel is a square of its color at its place, a text the ink that
  -- `paint_text` gives, a line with a gradient one shape; a gradient's rectangle ends with the mesh of
  -- its polygon, and a path is the meshes of its union's polygons, if it is filled, and their outlines,
  -- if it has a color. What is asked of `f32` is that half the shorter side's length is a number from 0
  -- on, unless both sides are NaN.
  pub paint-Ends :
      (list : DrawList fl.F)
      → HasHalves fl pl geo
      → Ends list.cmds (paint fl pl geo vp list sizing).1
  unfolding paint
  paint-Ends list halves =
      ends list.cmds (paint_cmds fl pl geo vp sizing list.cmds)
        (is_some-paint_cmds fl pl geo halves vp sizing list.cmds) (paint_cmds-ShowsAll list.cmds)
