-- ===== src/Render/Paint/Polygons.antt =====
-- crates/sni-render/src/paint.rs: the polygons of rectangles, rounded rectangles and circles, their
-- union, and the meshes and outlines of polygons.
use sni_lua.Common.Float.{Float}
use sni_lua.Common.{
  ℕ, zero, suc, Bool, true, false, ◌&&◌, ◌||◌, List, [], ◌∷◌, ◌++◌, map, Option, none, some,
  if◌then◌else◌, ltb, min, max, length,
}
use sni_lua.Render.Paint.{Plane, Polygon, Geo, Stroke, Mesh, Shape, closed_line, clamp, lerp_color}
use sni_lua.Render.Text.{Viewport, pt, le}
use sni_lua.Render.{Color, PathPrimitive, path_rect, path_round_rect, path_circle}

abbrev pub is_empty : {A : Type 0} → List A → Bool
is_empty [] = true
is_empty (x ∷ xs) = false

-- `pts.push(pts[0])`; the lists at hand are not empty
abbrev pub closed_up : {A : Type 0} → List A → List A
closed_up [] = []
closed_up (x ∷ xs) = x ∷ xs ++ x ∷ []

-- `coords[..len - 1]`
unfoldable pub without_last : {A : Type 0} → List A → List A
without_last [] = []
without_last (x ∷ []) = []
without_last (x ∷ y ∷ ys) = x ∷ without_last (y ∷ ys)

unfoldable pub last : {A : Type 0} → List A → Option A
last [] = none
last (x ∷ []) = some x
last (x ∷ y ∷ ys) = last (y ∷ ys)

module _ (fl : Float) (pl : Plane fl.F) where
  -- the point of a circle at an angle in radians
  abbrev pub on_circle : fl.F × fl.F → fl.F → fl.F → fl.F × fl.F
  on_circle c radius a =
      (fl.add c.0 (fl.mul radius (pl.cos a)), fl.add c.1 (fl.mul radius (pl.sin a)))

  -- the angle of the `i`-th of `steps` steps from one angle in degrees to another
  abbrev pub angle : fl.F → fl.F → ℕ → ℕ → fl.F
  angle start end steps i =
      pl.to_radians
        (fl.add start (fl.mul (fl.sub end start) (fl.div (fl.of_nat i) (fl.of_nat steps))))

  -- a point is pushed unless it is the last one
  unfoldable pub push_new : List (fl.F × fl.F) → fl.F × fl.F → List (fl.F × fl.F)
  unfolding last
  push_new pts next = elim (last pts) [
    | none ↦ pts ++ next ∷ []
    | some p ↦ if fl.eq p.0 next.0 && fl.eq p.1 next.1 then pts else pts ++ next ∷ []
  ]

  -- the loop from step `i` on, with `left` steps to go
  unfoldable pub arc_from :
      fl.F × fl.F
      → (radius start end : fl.F) → (steps left i : ℕ) → List (fl.F × fl.F)
      → List (fl.F × fl.F)
  unfolding push_new
  arc_from c radius start end steps zero i pts = pts
  arc_from c radius start end steps (suc left) i pts =
      arc_from c radius start end steps left (suc i)
        (push_new pts (on_circle c radius (angle start end steps i)))

  unfoldable pub append_arc :
      List (fl.F × fl.F) → fl.F × fl.F → (radius start end : fl.F) → ℕ → List (fl.F × fl.F)
  unfolding arc_from
  append_arc pts c radius start end steps = arc_from c radius start end steps (suc steps) 0 pts

  abbrev pub steps_of : fl.F → ℕ → ℕ → ℕ
  steps_of r lo hi = min (max (fl.trunc (fl.ceil (fl.div r (fl.of_nat 3)))) lo) hi

  module _ (geo : Geo fl.F) where
    unfoldable pub rect_polygon : (x y w h : fl.F) → Polygon fl.F
    rect_polygon x y w h =
        geo.polygon
          ((x, y) ∷ (fl.add x w, y) ∷ (fl.add x w, fl.add y h) ∷ (x, fl.add y h) ∷ (x, y) ∷ [])

    unfoldable pub rounded : (x y w h r : fl.F) → ℕ → Polygon fl.F
    unfolding append_arc
    rounded x y w h r steps =
        let deg = λ (n : ℕ). fl.of_nat n in
        let right = fl.sub (fl.add x w) r in
        let bottom = fl.sub (fl.add y h) r in
        let a =
          append_arc ((fl.add x r, y) ∷ []) (right, fl.add y r) r (pl.neg (deg 90)) (deg 0) steps in
        let b = append_arc a (right, bottom) r (deg 0) (deg 90) steps in
        let c = append_arc b (fl.add x r, bottom) r (deg 90) (deg 180) steps in
        let d = append_arc c (fl.add x r, fl.add y r) r (deg 180) (deg 270) steps in
        geo.polygon (closed_up d)

    -- the largest radius
    abbrev pub radius_cap : fl.F → fl.F → fl.F
    radius_cap w h = fl.mul (fl.min (pl.abs w) (pl.abs h)) (fl.lit 1 2)

    -- `none` is the panic of `clamp` at a bound below 0 or NaN
    unfoldable pub round_rect_polygon : (x y w h radius : fl.F) → Option (Polygon fl.F)
    unfolding rect_polygon rounded
    round_rect_polygon x y w h radius =
        let r = clamp fl (fl.of_nat 0) (radius_cap w h) radius in
        if le fl (fl.of_nat 0) (radius_cap w h)
        then some (
            if le fl r (fl.of_nat 0)
            then rect_polygon x y w h
            else rounded x y w h r (steps_of r 3 12))
        else none

    -- the points of a circle from step `i` on
    unfoldable pub circle_from : fl.F × fl.F → fl.F → (steps left i : ℕ) → List (fl.F × fl.F)
    circle_from c radius steps zero i = []
    circle_from c radius steps (suc left) i =
        on_circle c radius (fl.mul (fl.div (fl.of_nat i) (fl.of_nat steps)) pl.tau)
        ∷ circle_from c radius steps left (suc i)

    unfoldable pub circle_polygon : (x y radius : fl.F) → Polygon fl.F
    unfolding circle_from
    circle_polygon x y radius =
        let steps = steps_of (pl.abs radius) 8 64 in
        geo.polygon (closed_up (circle_from (x, y) radius steps steps 0))

    unfoldable pub primitive : PathPrimitive fl.F → Option (Polygon fl.F)
    unfolding rect_polygon round_rect_polygon circle_polygon
    primitive (path_rect x y w h) = some (rect_polygon x y w h)
    primitive (path_round_rect x y w h radius) = round_rect_polygon x y w h radius
    primitive (path_circle x y radius) = some (circle_polygon x y radius)

    -- the union so far, if there is one, joined with a polygon
    abbrev pub joined : Option (List (Polygon fl.F)) → Polygon fl.F → List (Polygon fl.F)
    joined none p = p ∷ []
    joined (some cur) p = geo.union cur (p ∷ [])

    unfoldable pub union_from :
        Option (List (Polygon fl.F)) → List (PathPrimitive fl.F) → Option (List (Polygon fl.F))
    unfolding primitive
    union_from none [] = some []
    union_from (some cur) [] = some cur
    union_from so_far (s ∷ shapes) = elim (primitive s) [
      | none ↦ none
      | some p ↦ union_from (some (joined so_far p)) shapes
    ]

    unfoldable pub union_shapes : List (PathPrimitive fl.F) → Option (List (Polygon fl.F))
    unfolding union_from
    union_shapes = union_from none

    unfoldable pub least : (fl.F × fl.F → fl.F) → fl.F → List (fl.F × fl.F) → fl.F
    least f m [] = m
    least f m (p ∷ ps) = least f (fl.min m (f p)) ps

    unfoldable pub greatest : (fl.F × fl.F → fl.F) → fl.F → List (fl.F × fl.F) → fl.F
    greatest f m [] = m
    greatest f m (p ∷ ps) = greatest f (fl.max m (f p)) ps

    -- the mesh whose color runs along one coordinate of its vertices
    unfoldable pub graded :
        Viewport fl.F
        → List (fl.F × fl.F) × List ℕ
        → (start end : Color) → (fl.F × fl.F → fl.F)
        → Mesh fl.F
    unfolding pt lerp_color least greatest
    graded vp raw start end f =
        let lo = least f pl.infinity raw.0 in
        let span = fl.max (fl.sub (greatest f (pl.neg pl.infinity) raw.0) lo) pl.epsilon in
        record {
          vertices =
              map
                (λ p. (
                  pt fl vp p.0 p.1,
                  lerp_color fl start end
                      (clamp fl (fl.of_nat 0) (fl.of_nat 1) (fl.div (fl.sub (f p) lo) span)),
                ))
                raw.0;
          indices = raw.1;
        }

    unfoldable pub polygon_mesh :
        Viewport fl.F → Polygon fl.F → (start end : Color) → (vertical : Bool) → Option (Mesh fl.F)
    unfolding graded
    polygon_mesh vp polygon start end vertical =
        let raw = geo.earcut_triangles_raw polygon in
        if is_empty raw.0 || is_empty raw.1
        then none
        else some (graded vp raw start end (λ p. if vertical then p.1 else p.0))

    unfoldable pub ring_points : List (fl.F × fl.F) → Viewport fl.F → List (fl.F × fl.F)
    unfolding pt without_last
    ring_points ring vp = map (λ p. pt fl vp p.0 p.1) (without_last ring)

    unfoldable pub ring_outline :
        Viewport fl.F → Stroke fl.F → List (fl.F × fl.F) → List (Shape fl.F)
    unfolding ring_points
    ring_outline vp s ring =
        let pts = ring_points ring vp in if ltb (length pts) 2 then [] else closed_line pts s ∷ []

    unfoldable pub holes_outline :
        Viewport fl.F → Stroke fl.F → List (List (fl.F × fl.F)) → List (Shape fl.F)
    unfolding ring_outline
    holes_outline vp s [] = []
    holes_outline vp s (hole ∷ holes) = ring_outline vp s hole ++ holes_outline vp s holes

    unfoldable pub paint_polygon_outline :
        Viewport fl.F → Stroke fl.F → Polygon fl.F → List (Shape fl.F)
    unfolding ring_outline holes_outline
    paint_polygon_outline vp s polygon =
        ring_outline vp s polygon.exterior ++ holes_outline vp s polygon.interiors
