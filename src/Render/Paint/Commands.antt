-- ===== src/Render/Paint/Commands.antt =====
-- crates/sni-render/src/paint.rs, `paint`: what each command paints. `none` is a panic.
use sni_lua.Common.Float.{Float}
use sni_lua.Common.{
  ℕ, zero, suc, Bool, false, List, [], ◌∷◌, ◌++◌, map, Option, none, some, if◌then◌else◌, ltb, min,
  max, length,
}
use sni_lua.Render.Paint.Polygons.{
  on_circle, angle, rect_polygon, round_rect_polygon, union_shapes, polygon_mesh,
  paint_polygon_outline,
}
use sni_lua.Render.Paint.{
  Plane, Polygon, Geo, Mesh, Rect, Shape, filled, rect as rect_shape, line_segment, circle_filled,
  circle_stroke, convex_polygon, closed_line, line as open_line, mesh, len, stroke, screen_rect,
  rect_at, rounding, paint_shadow,
}
use sni_lua.Render.Text.{Viewport, TextSizing, pt, le, paint_text}
use sni_lua.Render.{
  Color, ShadowSpec, DrawList, DrawCmd, text, rect, round_rect, line, pixel, circle, triangle, poly,
  gradient_line, gradient_rect, path, arc,
}

module _ (fl : Float) (pl : Plane fl.F) (geo : Geo fl.F) where
  abbrev pub if_filled : Option Color → (Color → List (Shape fl.F)) → List (Shape fl.F)
  if_filled none f = []
  if_filled (some c) f = f c

  abbrev pub meshes : Option (Mesh fl.F) → List (Shape fl.F)
  meshes none = []
  meshes (some m) = mesh m ∷ []

  unfoldable pub paint_rect_shape :
      Viewport fl.F
      → Rect fl.F
      → (radius : fl.F) → (fill : Option Color) → Color
      → (thickness : fl.F) → Option (ShadowSpec fl.F)
      → List (Shape fl.F)
  unfolding paint_shadow
  paint_rect_shape vp r radius fill color thickness shadow =
      paint_shadow fl vp r radius shadow
      ++ rect_shape r (rounding fl radius) fill (stroke fl vp thickness color) ∷ []

  unfoldable pub paint_gradient_line :
      Viewport fl.F
      → (x1 y1 x2 y2 : fl.F) → (start end : Color) → (thickness : fl.F) → List (Shape fl.F)
  unfolding pt
  paint_gradient_line vp x1 y1 x2 y2 start end thickness =
      let p1 = pt fl vp x1 y1 in
      let p2 = pt fl vp x2 y2 in
      let dx = fl.sub p2.0 p1.0 in
      let dy = fl.sub p2.1 p1.1 in
      let long = pl.hypot dx dy in
      let th = fl.max (len fl vp thickness) (fl.of_nat 1) in
      let half = fl.mul th (fl.lit 1 2) in
      let nx = fl.mul (pl.neg dy) (fl.div half long) in
      let ny = fl.mul dx (fl.div half long) in
      if le fl long pl.epsilon
      then circle_filled p1 half start ∷ []
      else mesh record {
        vertices =
            ((fl.add p1.0 nx, fl.add p1.1 ny), start)
            ∷ ((fl.sub p1.0 nx, fl.sub p1.1 ny), start)
            ∷ ((fl.sub p2.0 nx, fl.sub p2.1 ny), end)
            ∷ ((fl.add p2.0 nx, fl.add p2.1 ny), end)
            ∷ [];
        indices = 0 ∷ 1 ∷ 2 ∷ 0 ∷ 2 ∷ 3 ∷ [];
      }
        ∷ []

  -- the polygon of a gradient's rectangle
  unfoldable pub gradient_polygon : (x y w h radius : fl.F) → Option (Polygon fl.F)
  unfolding rect_polygon round_rect_polygon
  gradient_polygon x y w h radius =
      if fl.gt radius (fl.of_nat 0)
      then round_rect_polygon fl pl geo x y w h radius
      else some (rect_polygon fl pl geo x y w h)

  unfoldable pub fill_union : Viewport fl.F → List (Polygon fl.F) → Color → List (Shape fl.F)
  unfolding polygon_mesh
  fill_union vp [] f = []
  fill_union vp (p ∷ ps) f = meshes (polygon_mesh fl pl geo vp p f f false) ++ fill_union vp ps f

  unfoldable pub outline_union :
      Viewport fl.F → List (Polygon fl.F) → fl.F → Color → List (Shape fl.F)
  unfolding paint_polygon_outline
  outline_union vp [] thickness c = []
  outline_union vp (p ∷ ps) thickness c =
      paint_polygon_outline fl pl geo vp (stroke fl vp thickness c) p
      ++ outline_union vp ps thickness c

  -- the number of segments of an arc of radius `r` on the screen
  unfoldable pub arc_steps : (r start end : fl.F) → ℕ
  arc_steps r start end =
      let sweep = pl.abs (fl.sub end start) in
      min
        (max (min (max (fl.trunc (fl.ceil (fl.div sweep (fl.of_nat 6)))) 2) 180)
          (fl.trunc (fl.div r (fl.of_nat 8))))
        360

  -- the points of an arc from step `i` on
  unfoldable pub arc_points :
      fl.F × fl.F → (r start end : fl.F) → (steps left i : ℕ) → List (fl.F × fl.F)
  arc_points c r start end steps zero i = []
  arc_points c r start end steps (suc left) i =
      on_circle fl pl c r (angle fl pl start end steps i)
      ∷ arc_points c r start end steps left (suc i)

  unfoldable pub paint_arc :
      Viewport fl.F
      → (x y radius start end : fl.F) → Color
      → Option Color
      → fl.F
      → List (Shape fl.F)
  unfolding pt arc_steps arc_points
  paint_arc vp x y radius start end color fill thickness =
      let c = pt fl vp x y in
      let r = len fl vp radius in
      let steps = arc_steps r start end in
      let pts = arc_points c r start end steps (suc steps) 0 in
      if_filled fill (λ f. convex_polygon (c ∷ pts) f ∷ [])
      ++ open_line pts (stroke fl vp thickness color) ∷ []

  unfoldable pub paint_poly :
      Viewport fl.F → List (fl.F × fl.F) → Bool → Color → Option Color → fl.F → List (Shape fl.F)
  unfolding pt
  paint_poly vp points closed color fill thickness =
      let p = map (λ q. pt fl vp q.0 q.1) points in
      let s = stroke fl vp thickness color in
      if ltb (length points) 2
      then []
      else if closed
      then if_filled fill (λ f. convex_polygon p f ∷ []) ++ closed_line p s ∷ []
      else open_line p s ∷ []

  unfoldable pub paint_cmd :
      Viewport fl.F → TextSizing fl.F → DrawCmd fl.F → Option (List (Shape fl.F))
  unfolding pt rect_at paint_text paint_rect_shape paint_shadow paint_gradient_line gradient_polygon
      polygon_mesh union_shapes fill_union outline_union paint_arc paint_poly
  paint_cmd vp sizing (text x y label color scale font bg outline align valign) =
      some (map filled (paint_text fl vp x y label color scale font sizing bg outline align valign))
  paint_cmd vp sizing (rect x y w h color fill thickness shadow) =
      some (paint_rect_shape vp (rect_at fl vp x y w h) (fl.of_nat 0) fill color thickness shadow)
  paint_cmd vp sizing (round_rect x y w h radius color fill thickness shadow) =
      some
        (paint_rect_shape vp (rect_at fl vp x y w h) (len fl vp radius) fill color thickness shadow)
  paint_cmd vp sizing (line x1 y1 x2 y2 color thickness) =
      some (line_segment (pt fl vp x1 y1) (pt fl vp x2 y2) (stroke fl vp thickness color) ∷ [])
  paint_cmd vp sizing (pixel x y color) = some (
      filled record {
        min = pt fl vp x y;
        size = (fl.max vp.scale (fl.of_nat 1), fl.max vp.scale (fl.of_nat 1));
        color = color;
      }
      ∷ [])
  paint_cmd vp sizing (circle x y radius color fill thickness) =
      let c = pt fl vp x y in
      let r = len fl vp radius in
      some (
        if_filled fill (λ f. circle_filled c r f ∷ [])
        ++ circle_stroke c r (stroke fl vp thickness color) ∷ [])
  paint_cmd vp sizing (triangle x1 y1 x2 y2 x3 y3 color fill thickness) =
      let p : List (fl.F × fl.F) = pt fl vp x1 y1 ∷ pt fl vp x2 y2 ∷ pt fl vp x3 y3 ∷ [] in
      some (
        if_filled fill (λ f. convex_polygon p f ∷ [])
        ++ closed_line p (stroke fl vp thickness color) ∷ [])
  paint_cmd vp sizing (poly points closed color fill thickness) =
      some (paint_poly vp points closed color fill thickness)
  paint_cmd vp sizing (gradient_line x1 y1 x2 y2 start end thickness) =
      some (paint_gradient_line vp x1 y1 x2 y2 start end thickness)
  paint_cmd vp sizing (gradient_rect x y w h radius start end vertical shadow) =
      elim (gradient_polygon x y w h radius) [
        | none ↦ none
        | some p ↦ some (
            paint_shadow fl vp (rect_at fl vp x y w h) (len fl vp radius) shadow
            ++ meshes (polygon_mesh fl pl geo vp p start end vertical))
      ]
  paint_cmd vp sizing (path shapes color fill thickness) = elim (union_shapes fl pl geo shapes) [
    | none ↦ none
    | some u ↦
        some (if_filled fill (fill_union vp u) ++ if_filled color (outline_union vp u thickness))
  ]
  paint_cmd vp sizing (arc x y radius start_deg end_deg color fill thickness) =
      some (paint_arc vp x y radius start_deg end_deg color fill thickness)

  unfoldable pub paint_cmds :
      Viewport fl.F → TextSizing fl.F → List (DrawCmd fl.F) → Option (List (Shape fl.F))
  unfolding paint_cmd
  paint_cmds vp sizing [] = some []
  paint_cmds vp sizing (cmd ∷ cmds) = elim (paint_cmd vp sizing cmd) [
    | none ↦ none
    | some s ↦ elim (paint_cmds vp sizing cmds) [ none ↦ none | some rest ↦ some (s ++ rest) ]
  ]

  -- the rectangle that clips, and the shapes in the order in which they are painted
  unfoldable pub paint :
      Viewport fl.F → DrawList fl.F → TextSizing fl.F → Rect fl.F × Option (List (Shape fl.F))
  unfolding screen_rect paint_cmds
  paint vp list sizing = (screen_rect fl vp, paint_cmds vp sizing list.cmds)
