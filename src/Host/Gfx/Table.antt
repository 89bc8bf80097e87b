-- ===== src/Host/Gfx/Table.antt =====
-- The calls of the `gfx` table as data, and what each does.
use sni_lua.Common.Float.{Float}
use sni_lua.Common.{ℕ, Bool, List, Option, Str}
use sni_lua.Host.Options.{OptValue, Tables}
use sni_lua.Host.Gfx.State.{Gfx, offset}
use sni_lua.Host.Gfx.Draws.{
  draw_text, push_origin, pop_origin, set_font, request_text_sizing, request_canvas, request_scale,
  draw_box, draw_round_rect, draw_gradient_rect, draw_line, draw_gradient_line, draw_pixel,
  draw_circle, draw_triangle, draw_poly, begin_path, add_rect, add_round_rect, add_circle,
  fill_path, stroke_path, draw_arc,
}

-- The calls, by their names in the table. The points of a polygon are read one by one.
pub data Call (F T : Type 0) : Type 0 where
  gfx_text : (x y : F) (s : Str) (color : Option ℕ) (opts : Option (OptValue F T)) → Call F T
  gfx_push_origin : (x y : F) → Call F T
  gfx_pop_origin : Call F T
  gfx_font : Str → Call F T
  gfx_text_sizing : Str → F → Call F T
  gfx_canvas : (w h : F) → Call F T
  gfx_scale : ℕ → Call F T
  gfx_box :
      (x y w h : F) (color fill : Option ℕ) (thickness : Option F) (opts : Option (OptValue F T))
      → Call F T
  gfx_round_rect :
      (x y w h radius : F) (color fill : Option ℕ) (thickness : Option F)
      (opts : Option (OptValue F T))
      → Call F T
  gfx_gradient_rect : (x y w h : F) (start end : ℕ) (opts : Option (OptValue F T)) → Call F T
  gfx_line : (x1 y1 x2 y2 : F) (color : Option ℕ) (thickness : Option F) → Call F T
  gfx_gradient_line : (x1 y1 x2 y2 : F) (start end : ℕ) (thickness : Option F) → Call F T
  gfx_pixel : (x y : F) (color : Option ℕ) → Call F T
  gfx_circle : (x y radius : F) (color fill : Option ℕ) (thickness : Option F) → Call F T
  gfx_triangle : (x1 y1 x2 y2 x3 y3 : F) (color fill : Option ℕ) (thickness : Option F) → Call F T
  gfx_poly :
      (points : List (Option (F × F))) (color fill : Option ℕ) (thickness : Option F)
      (closed : Option Bool)
      → Call F T
  gfx_begin_path : Call F T
  gfx_path_rect : (x y w h : F) → Call F T
  gfx_path_round_rect : (x y w h radius : F) → Call F T
  gfx_path_circle : (x y radius : F) → Call F T
  gfx_fill_path : (fill : ℕ) (color : Option ℕ) (thickness : Option F) → Call F T
  gfx_stroke_path : (color : Option ℕ) (thickness : Option F) → Call F T
  gfx_arc :
      (x y radius start_deg end_deg : F) (color fill : Option ℕ) (thickness : Option F) → Call F T

module _ (fl : Float) (tb : Tables fl.F) where
  -- a call under an offset
  unfoldable pub call_at : fl.F × fl.F → Call fl.F tb.T → Gfx fl.F → Option (Gfx fl.F)
  call_at o (gfx_text x y s color opts) g = draw_text fl tb o x y s color opts g
  call_at o (gfx_push_origin x y) g = push_origin fl tb o x y g
  call_at o gfx_pop_origin g = pop_origin fl tb g
  call_at o (gfx_font name) g = set_font fl tb name g
  call_at o (gfx_text_sizing mode size) g = request_text_sizing fl tb mode size g
  call_at o (gfx_canvas w h) g = request_canvas fl tb w h g
  call_at o (gfx_scale n) g = request_scale fl tb n g
  call_at o (gfx_box x y w h color fill thickness opts) g =
      draw_box fl tb o x y w h color fill thickness opts g
  call_at o (gfx_round_rect x y w h radius color fill thickness opts) g =
      draw_round_rect fl tb o x y w h radius color fill thickness opts g
  call_at o (gfx_gradient_rect x y w h start end opts) g =
      draw_gradient_rect fl tb o x y w h start end opts g
  call_at o (gfx_line x1 y1 x2 y2 color thickness) g =
      draw_line fl tb o x1 y1 x2 y2 color thickness g
  call_at o (gfx_gradient_line x1 y1 x2 y2 start end thickness) g =
      draw_gradient_line fl tb o x1 y1 x2 y2 start end thickness g
  call_at o (gfx_pixel x y color) g = draw_pixel fl tb o x y color g
  call_at o (gfx_circle x y radius color fill thickness) g =
      draw_circle fl tb o x y radius color fill thickness g
  call_at o (gfx_triangle x1 y1 x2 y2 x3 y3 color fill thickness) g =
      draw_triangle fl tb o x1 y1 x2 y2 x3 y3 color fill thickness g
  call_at o (gfx_poly points color fill thickness closed) g =
      draw_poly fl tb o points color fill thickness closed g
  call_at o gfx_begin_path g = begin_path fl tb g
  call_at o (gfx_path_rect x y w h) g = add_rect fl tb o x y w h g
  call_at o (gfx_path_round_rect x y w h radius) g = add_round_rect fl tb o x y w h radius g
  call_at o (gfx_path_circle x y radius) g = add_circle fl tb o x y radius g
  call_at o (gfx_fill_path fill color thickness) g = fill_path fl tb fill color thickness g
  call_at o (gfx_stroke_path color thickness) g = stroke_path fl tb color thickness g
  call_at o (gfx_arc x y radius start_deg end_deg color fill thickness) g =
      draw_arc fl tb o x y radius start_deg end_deg color fill thickness g

  unfoldable pub call : Call fl.F tb.T → Gfx fl.F → Option (Gfx fl.F)
  unfolding offset call_at
  call c g = call_at (offset fl g) c g
