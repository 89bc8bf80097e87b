-- ===== src/Render/Paint.antt =====
-- crates/sni-render/src/paint.rs: the shapes that a command of the draw list paints. egui tessellates
-- and blends them; trigonometry, and geo's triangulation and union of polygons, are interfaces.
pub mod Polygons
pub mod Commands
pub mod Bounded
pub mod Drawn
use sni_lua.Common.Float.{Float}
use sni_lua.Common.{ℕ, Bool, List, [], ◌∷◌, Option, none, some, if◌then◌else◌, min}
use sni_lua.Render.Text.{Viewport, Filled, pt}
use sni_lua.Render.{Color, ShadowSpec}

-- what the painter uses of `f32` beyond arithmetic
pub record Plane (F : Type 0) : Type 0 where
  pub neg : F → F
  pub abs : F → F
  pub cos : F → F
  pub sin : F → F
  pub to_radians : F → F
  -- the length of a vector
  pub hypot : F → F → F
  pub epsilon : F
  pub infinity : F
  pub tau : F

pub record Polygon (F : Type 0) : Type 0 where
  pub exterior : List (F × F)
  pub interiors : List (List (F × F))

pub record Geo (F : Type 0) : Type 0 where
  -- `Polygon::new` of a ring, without holes
  pub polygon : List (F × F) → Polygon F
  -- the vertices and the indices of the triangles
  pub earcut_triangles_raw : Polygon F → List (F × F) × List ℕ
  pub union : List (Polygon F) → List (Polygon F) → List (Polygon F)

pub record Stroke (F : Type 0) : Type 0 where
  pub width : F
  pub color : Color

pub record Rect (F : Type 0) : Type 0 where
  pub min : F × F
  pub size : F × F

pub record Mesh (F : Type 0) : Type 0 where
  pub vertices : List ((F × F) × Color)
  pub indices : List ℕ

-- A shape as egui's painter is given it; no fill is the transparent one.
pub data Shape (F : Type 0) : Type 0 where
  filled : Filled F → Shape F
  shadow : (rect : Rect F) (rounding : F) (spec : ShadowSpec F) → Shape F
  rect : (rect : Rect F) (rounding : F) (fill : Option Color) (stroke : Stroke F) → Shape F
  line_segment : (from to : F × F) (stroke : Stroke F) → Shape F
  circle_filled : (center : F × F) (radius : F) (color : Color) → Shape F
  circle_stroke : (center : F × F) (radius : F) (stroke : Stroke F) → Shape F
  convex_polygon : (points : List (F × F)) (color : Color) → Shape F
  closed_line : (points : List (F × F)) (stroke : Stroke F) → Shape F
  line : (points : List (F × F)) (stroke : Stroke F) → Shape F
  mesh : Mesh F → Shape F

module _ (fl : Float) where
  abbrev pub len : Viewport fl.F → fl.F → fl.F
  len vp v = fl.mul v vp.scale

  abbrev pub stroke : Viewport fl.F → fl.F → Color → Stroke fl.F
  stroke vp thickness color = record {
    width = fl.max (len vp thickness) (fl.of_nat 1);
    color = color;
  }

  unfoldable pub screen_rect : Viewport fl.F → Rect fl.F
  screen_rect vp = record {
    min = vp.origin;
    size = (fl.mul vp.canvas.w vp.scale, fl.mul vp.canvas.h vp.scale);
  }

  unfoldable pub rect_at : Viewport fl.F → (x y w h : fl.F) → Rect fl.F
  unfolding pt
  rect_at vp x y w h = record { min = pt fl vp x y; size = (len vp w, len vp h) }

  abbrev pub rounding : fl.F → fl.F
  rounding radius = fl.max radius (fl.of_nat 0)

  unfoldable pub paint_shadow :
      Viewport fl.F → Rect fl.F → fl.F → Option (ShadowSpec fl.F) → List (Shape fl.F)
  paint_shadow vp r radius none = []
  paint_shadow vp r radius (some s) =
      shadow r (rounding radius) record {
        dx = len vp s.dx;
        dy = len vp s.dy;
        blur = len vp s.blur;
        spread = len vp s.spread;
        color = s.color;
      }
      ∷ []

  -- `f32::clamp` with bounds that are in order
  abbrev pub clamp : fl.F → fl.F → fl.F → fl.F
  clamp lo hi x = if fl.gt lo x then lo else if fl.gt x hi then hi else x

  unfoldable pub lerp_channel : ℕ → ℕ → fl.F → ℕ
  lerp_channel a b t =
      let x = fl.add (fl.of_nat a) (fl.mul (fl.sub (fl.of_nat b) (fl.of_nat a)) t) in
      min (fl.trunc (clamp (fl.of_nat 0) (fl.of_nat 255) (fl.round x))) 255

  unfoldable pub lerp_color : Color → Color → fl.F → Color
  unfolding lerp_channel
  lerp_color a b t = record {
    r = lerp_channel a.r b.r t;
    g = lerp_channel a.g b.g t;
    b = lerp_channel a.b b.b t;
    a = lerp_channel a.a b.a t;
  }
