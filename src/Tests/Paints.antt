-- ===== src/Tests/Paints.antt =====
-- A list of rounded shapes, painted with the whole numbers for `f32`.
use sni_lua.Common.{arith, ℕ, false, [], ◌∷◌, some, none}
use sni_lua.Render.Paint.Bounded.{HasHalves}
use sni_lua.Render.Paint.Drawn.{Ends, paint-Ends}
use sni_lua.Render.Paint.Commands.{paint}
use sni_lua.Render.Paint.{Plane, Geo}
use sni_lua.Render.Text.{Viewport, fixed_screen}
use sni_lua.Render.{rgba, DrawList, gradient_rect, path, path_round_rect, path_circle}
use sni_lua.Tests.Data.{whole}

abbrev flat : Plane ℕ
flat = record {
  neg = λ x. x;
  abs = λ x. x;
  cos = λ x. 1;
  sin = λ x. 0;
  to_radians = λ x. x;
  hypot = λ x y. x;
  epsilon = 0;
  infinity = 1_000;
  tau = 6;
}

abbrev no_union : Geo ℕ
no_union = record {
  polygon = λ ring. record { exterior = ring; interiors = [] };
  earcut_triangles_raw = λ p. (p.exterior, 0 ∷ 1 ∷ 2 ∷ []);
  union = λ ps qs. ps;
}

abbrev rounded_shapes : DrawList ℕ
rounded_shapes = record {
  cmds =
      gradient_rect 0 0 8 8 2 (rgba 0 0 0 255) (rgba 255 0 0 255) false none
      ∷ path (path_circle 4 4 2 ∷ path_round_rect 0 0 8 4 1 ∷ []) (some (rgba 0 0 0 255)) none 1
      ∷ [];
}

abbrev window : Viewport ℕ
window = record { origin = (0, 0); scale = 2; canvas = record { w = 256; h = 224 } }

whole-HasHalves : HasHalves whole flat no_union
whole-HasHalves w h = ground arith

paint-Ends_example :
    Ends whole flat no_union window
      (fixed_screen 2)
      rounded_shapes.cmds
      (paint whole flat no_union window rounded_shapes (fixed_screen 2)).1
paint-Ends_example =
    paint-Ends whole flat no_union window (fixed_screen 2) rounded_shapes whole-HasHalves
