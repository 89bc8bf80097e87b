-- ===== src/Tests/Drawings.antt =====
-- The `gfx` calls at concrete inputs.
use sni_lua.Common.{
  max, ◌*◌, map, All, length, split_lines, onto, ℕ, ◌≡◌, refl, List, [], ◌∷◌, ◌++◌, none,
}
use sni_lua.Host.Gfx.Groups.{nothing, draws, group, run, under, moved, then_do, run-group}
use sni_lua.Host.Gfx.Placement.{Places, call-Places}
use sni_lua.Host.Gfx.State.{Gfx, offset}
use sni_lua.Host.Gfx.Table.{
  Call, call, call_at, gfx_line, gfx_push_origin, gfx_pop_origin, gfx_pixel,
}
use sni_lua.Host.Options.{Tables, argb}
use sni_lua.Render.Font.{advance, line_advance, small, glyph, glyph_index, width}
use sni_lua.Render.Text.Cells.{square, cells, line_cells, InBox, lay-cells}
use sni_lua.Render.Text.{text_size, lay, columns, dots, row_bits}
use sni_lua.Render.{rgba, from_argb, native, line, push}
use sni_lua.Tests.Data.{whole}

-- no table has a field
abbrev bare : Tables ℕ
bare = record {
  T = ℕ;
  get_f32 = λ t k. none;
  get_u32 = λ t k. none;
  get_bool = λ t k. none;
  get_string = λ t k. none;
  get_value = λ t k. none;
}

abbrev blank : Gfx ℕ
blank = record {
  draw = record { cmds = [] };
  current_font = small;
  origin_stack = (10, 20) ∷ [];
  path_builder = [];
  requested_canvas = native whole;
  requested_text_sizing = none;
}

abbrev inner : List (Call ℕ ℕ)
inner = gfx_push_origin 1 1 ∷ (gfx_pixel 2 3 none ∷ []) ++ gfx_pop_origin ∷ []

run-group_example :
    run whole bare (gfx_push_origin 5 6 ∷ inner ++ gfx_pop_origin ∷ gfx_pixel 0 0 none ∷ []) blank
    ≡ then_do whole bare
        (run whole bare inner (under whole bare (moved whole bare 5 6 blank ∷ []) blank))
        (λ h. run whole bare (gfx_pixel 0 0 none ∷ []) (under whole bare ((10, 20) ∷ []) h))
run-group_example =
    run-group whole bare 5 6 inner (gfx_pixel 0 0 none ∷ []) blank
      (group (draws refl nothing) nothing)

abbrev drawn_once : Gfx ℕ
drawn_once = record blank {
  draw = record { cmds = line 11 22 13 24 (from_argb 0xFFFF_FFFF) 1 ∷ [] };
}

call-Places_example :
    Places whole bare (offset whole blank) (gfx_line 1 2 3 4 none none) blank drawn_once
unfolding call call_at offset push from_argb argb
call-Places_example = call-Places whole bare (gfx_line 1 2 3 4 none none) blank drawn_once refl

-- two lines of one character
abbrev two_lines : List ℕ
two_lines = b'1' ∷ b'\n' ∷ b'2' ∷ []

lay-cells_example :
    let text = two_lines in
    (lay whole small 2 (rgba 0 0 0 255) 10 (10, 20) text
      ≡ map (square whole small 2 (rgba 0 0 0 255) 10 20) (cells small 0 (split_lines text)))
    × All
        (InBox small (length (split_lines text)) (columns (split_lines text)))
        (cells small 0 (split_lines text))
    × (text_size whole small 2 text
        ≡ (1 * (advance small * 2), max (2 * (line_advance small * 2)) (line_advance small * 2)))
unfolding split_lines columns onto
lay-cells_example = lay-cells whole small 2 (rgba 0 0 0 255) 10 20 two_lines

period_is_one_dot :
    cells small 0 (split_lines (b'\n' ∷ b'.' ∷ []))
    ≡ record { line = 1; column = 0; row = 5; bit = 1 }
      ∷ record { line = 1; column = 0; row = 5; bit = 2 }
      ∷ record { line = 1; column = 0; row = 6; bit = 1 }
      ∷ record { line = 1; column = 0; row = 6; bit = 2 }
      ∷ []
unfolding cells line_cells split_lines onto dots row_bits glyph glyph_index width
period_is_one_dot = refl
