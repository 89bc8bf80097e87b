-- ===== src/Host/Gfx/Draws.antt =====
-- The calls of the `gfx` table, one function for each. The arguments are those that mlua has converted,
-- an optional argument is an `Option`; `o` is the offset, and `none` as a result is an error.
use sni_lua.Common.Float.{Float}
use sni_lua.Common.{ℕ, Bool, true, List, [], Option, none, some, Str}
use sni_lua.Host.Options.{
  OptValue, Tables, or_else, argb, color_of, parse_text_opts, parse_shape_shadow, resolve_shadow,
  parse_gradient_rect_opts,
}
use sni_lua.Render.Font.{Font, advance, line_advance}
use sni_lua.Render.Font as Font
use sni_lua.Render.{
  custom, scaled, from_argb, text, rect, round_rect, line, pixel, circle, triangle, poly,
  gradient_line, gradient_rect, arc, path_rect, path_round_rect, path_circle,
}
use sni_lua.Host.Gfx.State.{
  Gfx, emit, add_shape, origin_pushed, origin_popped, text_sizing, read_points, path_drawn,
}

module _ (fl : Float) (tb : Tables fl.F) where
  abbrev pub draw_text :
      (o : fl.F × fl.F) (x y : fl.F) (s : Str) (color : Option ℕ)
      (opts : Option (OptValue fl.F tb.T)) (g : Gfx fl.F)
      → Option (Gfx fl.F)
  draw_text o x y s color opts g = elim (parse_text_opts fl tb opts) [
    | none ↦ none
    | some t ↦ some (
        emit fl
          (text (fl.add x o.0) (fl.add y o.1) s (argb color 0xFFFF_FFFF) t.scale g.current_font t.bg
            t.outline t.align t.valign)
          g)
  ]

  abbrev pub push_origin : (o : fl.F × fl.F) (x y : fl.F) (g : Gfx fl.F) → Option (Gfx fl.F)
  push_origin o x y g = some (origin_pushed fl o x y g)

  abbrev pub pop_origin : (g : Gfx fl.F) → Option (Gfx fl.F)
  pop_origin g = some (origin_popped fl g)

  abbrev pub set_font : (name : Str) (g : Gfx fl.F) → Option (Gfx fl.F)
  set_font name g = some (record g { current_font = Font.parse name })

  abbrev pub request_text_sizing : (mode : Str) (size : fl.F) (g : Gfx fl.F) → Option (Gfx fl.F)
  request_text_sizing mode size g = elim (text_sizing fl mode size) [
    | none ↦ none
    | some r ↦ some (record g { requested_text_sizing = some r })
  ]

  abbrev pub request_canvas : (w h : fl.F) (g : Gfx fl.F) → Option (Gfx fl.F)
  request_canvas w h g = some (record g { requested_canvas = custom fl w h })

  abbrev pub request_scale : (n : ℕ) (g : Gfx fl.F) → Option (Gfx fl.F)
  request_scale n g = some (record g { requested_canvas = scaled fl n })

  abbrev pub draw_box :
      (o : fl.F × fl.F) (x y w h : fl.F) (color fill : Option ℕ) (thickness : Option fl.F)
      (opts : Option (OptValue fl.F tb.T)) (g : Gfx fl.F)
      → Option (Gfx fl.F)
  draw_box o x y w h color fill thickness opts g =
      let c = argb color 0xFF00_FF00 in
      elim (parse_shape_shadow fl tb opts) [
        | none ↦ none
        | some s ↦ some (
            emit fl
              (rect (fl.add x o.0) (fl.add y o.1) w h c (color_of fill)
                (or_else (fl.of_nat 1) thickness) (resolve_shadow fl s (or_else c (color_of fill))))
              g)
      ]

  abbrev pub draw_round_rect :
      (o : fl.F × fl.F) (x y w h radius : fl.F) (color fill : Option ℕ) (thickness : Option fl.F)
      (opts : Option (OptValue fl.F tb.T)) (g : Gfx fl.F)
      → Option (Gfx fl.F)
  draw_round_rect o x y w h radius color fill thickness opts g =
      let c = argb color 0xFF00_FF00 in
      elim (parse_shape_shadow fl tb opts) [
        | none ↦ none
        | some s ↦ some (
            emit fl
              (round_rect (fl.add x o.0) (fl.add y o.1) w h (fl.max radius (fl.of_nat 0)) c
                (color_of fill) (or_else (fl.of_nat 1) thickness)
                (resolve_shadow fl s (or_else c (color_of fill))))
              g)
      ]

  abbrev pub draw_gradient_rect :
      (o : fl.F × fl.F) (x y w h : fl.F) (start end : ℕ) (opts : Option (OptValue fl.F tb.T))
      (g : Gfx fl.F)
      → Option (Gfx fl.F)
  draw_gradient_rect o x y w h start end opts g = elim (parse_gradient_rect_opts fl tb opts) [
    | none ↦ none
    | some t ↦ some (
        emit fl
          (gradient_rect (fl.add x o.0) (fl.add y o.1) w h t.radius (from_argb start)
            (from_argb end) t.vertical (resolve_shadow fl t.shadow (from_argb start)))
          g)
  ]

  abbrev pub draw_line :
      (o : fl.F × fl.F) (x1 y1 x2 y2 : fl.F) (color : Option ℕ) (thickness : Option fl.F)
      (g : Gfx fl.F)
      → Option (Gfx fl.F)
  draw_line o x1 y1 x2 y2 color thickness g = some (
      emit fl
        (line (fl.add x1 o.0) (fl.add y1 o.1) (fl.add x2 o.0) (fl.add y2 o.1)
          (argb color 0xFFFF_FFFF) (or_else (fl.of_nat 1) thickness))
        g)

  abbrev pub draw_gradient_line :
      (o : fl.F × fl.F) (x1 y1 x2 y2 : fl.F) (start end : ℕ) (thickness : Option fl.F)
      (g : Gfx fl.F)
      → Option (Gfx fl.F)
  draw_gradient_line o x1 y1 x2 y2 start end thickness g = some (
      emit fl
        (gradient_line (fl.add x1 o.0) (fl.add y1 o.1) (fl.add x2 o.0) (fl.add y2 o.1)
          (from_argb start) (from_argb end) (or_else (fl.of_nat 1) thickness))
        g)

  abbrev pub draw_pixel :
      (o : fl.F × fl.F) (x y : fl.F) (color : Option ℕ) (g : Gfx fl.F) → Option (Gfx fl.F)
  draw_pixel o x y color g =
      some (emit fl (pixel (fl.add x o.0) (fl.add y o.1) (argb color 0xFFFF_FFFF)) g)

  abbrev pub draw_circle :
      (o : fl.F × fl.F) (x y radius : fl.F) (color fill : Option ℕ) (thickness : Option fl.F)
      (g : Gfx fl.F)
      → Option (Gfx fl.F)
  draw_circle o x y radius color fill thickness g = some (
      emit fl
        (circle (fl.add x o.0) (fl.add y o.1) radius (argb color 0xFF00_FF00) (color_of fill)
          (or_else (fl.of_nat 1) thickness))
        g)

  abbrev pub draw_triangle :
      (o : fl.F × fl.F) (x1 y1 x2 y2 x3 y3 : fl.F) (color fill : Option ℕ) (thickness : Option fl.F)
      (g : Gfx fl.F)
      → Option (Gfx fl.F)
  draw_triangle o x1 y1 x2 y2 x3 y3 color fill thickness g = some (
      emit fl
        (triangle (fl.add x1 o.0) (fl.add y1 o.1) (fl.add x2 o.0) (fl.add y2 o.1) (fl.add x3 o.0)
          (fl.add y3 o.1) (argb color 0xFF00_FF00) (color_of fill)
          (or_else (fl.of_nat 1) thickness))
        g)

  abbrev pub draw_poly :
      (o : fl.F × fl.F) (points : List (Option (fl.F × fl.F))) (color fill : Option ℕ)
      (thickness : Option fl.F) (closed : Option Bool) (g : Gfx fl.F)
      → Option (Gfx fl.F)
  draw_poly o points color fill thickness closed g = elim (read_points fl o points) [
    | none ↦ none
    | some ps ↦ some (
        emit fl
          (poly ps (or_else true closed) (argb color 0xFF00_FF00) (color_of fill)
            (or_else (fl.of_nat 1) thickness))
          g)
  ]

  abbrev pub begin_path : (g : Gfx fl.F) → Option (Gfx fl.F)
  begin_path g = some (record g { path_builder = [] })

  abbrev pub add_rect : (o : fl.F × fl.F) (x y w h : fl.F) (g : Gfx fl.F) → Option (Gfx fl.F)
  add_rect o x y w h g = some (add_shape fl (path_rect (fl.add x o.0) (fl.add y o.1) w h) g)

  abbrev pub add_round_rect :
      (o : fl.F × fl.F) (x y w h radius : fl.F) (g : Gfx fl.F) → Option (Gfx fl.F)
  add_round_rect o x y w h radius g = some (
      add_shape fl (path_round_rect (fl.add x o.0) (fl.add y o.1) w h (fl.max radius (fl.of_nat 0)))
        g)

  abbrev pub add_circle : (o : fl.F × fl.F) (x y radius : fl.F) (g : Gfx fl.F) → Option (Gfx fl.F)
  add_circle o x y radius g =
      some (add_shape fl (path_circle (fl.add x o.0) (fl.add y o.1) radius) g)

  abbrev pub fill_path :
      (fill : ℕ) (color : Option ℕ) (thickness : Option fl.F) (g : Gfx fl.F) → Option (Gfx fl.F)
  fill_path fill color thickness g =
      some (path_drawn fl (color_of color) (some (from_argb fill)) thickness g)

  abbrev pub stroke_path :
      (color : Option ℕ) (thickness : Option fl.F) (g : Gfx fl.F) → Option (Gfx fl.F)
  stroke_path color thickness g =
      some (path_drawn fl (some (argb color 0xFF00_FF00)) none thickness g)

  abbrev pub draw_arc :
      (o : fl.F × fl.F) (x y radius start_deg end_deg : fl.F) (color fill : Option ℕ)
      (thickness : Option fl.F) (g : Gfx fl.F)
      → Option (Gfx fl.F)
  draw_arc o x y radius start_deg end_deg color fill thickness g = some (
      emit fl
        (arc (fl.add x o.0) (fl.add y o.1) radius start_deg end_deg (argb color 0xFF00_FF00)
          (color_of fill) (or_else (fl.of_nat 1) thickness))
        g)
