-- ===== src/Render/Font.antt =====
-- crates/sni-render/src/font.rs: the two bitmap fonts.
pub mod Normal
pub mod Small
pub mod Glyphs
use sni_lua.Common.{
  ℕ, ◌+◌, ◌-◌, ◌&&◌, ◌||◌, List, Option, get_elem?, if◌then◌else◌, leb, Str, str, str_eq,
  to_ascii_lowercase,
}
use sni_lua.Render.Font.Normal.{font_8x8}
use sni_lua.Render.Font.Small.{font_5x7}

pub data Font : Type 0 where
  small normal : Font

unfoldable pub parse : Str → Font
unfolding str_eq
parse s =
    let l = to_ascii_lowercase s in
    if str_eq l (str "normal")
      || (str_eq l (str "big") || (str_eq l (str "large") || str_eq l (str "8x8")))
    then normal
    else small

unfoldable pub width : Font → ℕ
width small = 5
width normal = 8

unfoldable pub height : Font → ℕ
height small = 7
height normal = 8

unfoldable pub advance : Font → ℕ
unfolding width
advance f = width f + 1

unfoldable pub line_advance : Font → ℕ
unfolding height
line_advance f = height f + 1

-- the index of a character's glyph
unfoldable pub glyph_index : ℕ → ℕ
glyph_index c = if leb 0x20 c && leb c 0x7E then c - 0x20 else b'?' - 0x20

abbrev pub table : Font → List (List ℕ)
table small = font_5x7
table normal = font_8x8

-- `none` where the index is out of the table, which panics
unfoldable pub glyph : Font → ℕ → Option (List ℕ)
unfolding glyph_index
glyph f ch = get_elem? (table f) (glyph_index ch)
