-- ===== src/Render/Text.antt =====
-- crates/sni-render/src/paint.rs: the viewport, and the painting of a text. A text is the list of its
-- characters. What is painted is the list of the rectangles that egui's painter is given; of a
-- rectangle of the window the code reads the width, the height and the centre.
pub mod Cells
use sni_lua.Common.Float.{Float}
use sni_lua.Common.{
  ℕ, zero, suc, ◌+◌, ◌/◌, ◌%◌, ◌^◌, Bool, true, false, ◌||◌, List, [], ◌∷◌, ◌++◌, Option, none,
  some, map, length, if◌then◌else◌, max, ◌==◌, split_lines,
}
use sni_lua.Render.Font.{Font, width, advance, line_advance, glyph}
use sni_lua.Render.{
  Canvas, snes_ratio, Color, TextAlign, left, center, right, TextVAlign, top, middle, bottom,
}

pub data TextSizing (F : Type 0) : Type 0 where
  game_scaled : F → TextSizing F
  fixed_screen : F → TextSizing F

pub record Area (F : Type 0) : Type 0 where
  pub width : F
  pub height : F
  pub center : F × F

pub record Viewport (F : Type 0) : Type 0 where
  pub origin : F × F
  pub scale : F
  pub canvas : Canvas F

-- a filled rectangle
pub record Filled (F : Type 0) : Type 0 where
  pub min : F × F
  pub size : F × F
  pub color : Color

-- the pixels of a row that are set, for `count` bits from one on
unfoldable pub row_bits : (count from bits : ℕ) → List ℕ
row_bits zero from bits = []
row_bits (suc count) from bits =
    let rest = row_bits count (suc from) bits in
    if (bits / 2 ^ from) % 2 == 1 then from ∷ rest else rest

-- the pixels of a glyph, by their row and their bit; a row of zeros has none
unfoldable pub dots : Font → ℕ → List ℕ → List (ℕ × ℕ)
unfolding row_bits width
dots f row [] = []
dots f row (bits ∷ rows) =
    map (λ bit. (row, bit)) (row_bits (width f) 0 bits) ++ dots f (suc row) rows

abbrev pub rows_of : Option (List ℕ) → List ℕ
rows_of none = []
rows_of (some rows) = rows

-- the columns of the widest line
unfoldable pub columns : List (List ℕ) → ℕ
columns [] = 0
columns (l ∷ ls) = max (length l) (columns ls)

module _ (fl : Float) where
  unfoldable pub fit : Area fl.F → Canvas fl.F → Viewport fl.F
  fit area canvas =
      let scale = fl.min (fl.div area.width canvas.w) (fl.div area.height canvas.h) in
      let w = fl.mul canvas.w scale in
      let h = fl.mul canvas.h scale in
      record {
        origin = (
          fl.sub area.center.0 (fl.mul w (fl.lit 1 2)),
          fl.sub area.center.1 (fl.mul h (fl.lit 1 2)),
        );
        scale = scale;
        canvas = canvas;
      }

  unfoldable pub pt : Viewport fl.F → fl.F → fl.F → fl.F × fl.F
  pt vp x y = (fl.add vp.origin.0 (fl.mul x vp.scale), fl.add vp.origin.1 (fl.mul y vp.scale))

  abbrev pub le : fl.F → fl.F → Bool
  le a b = fl.gt b a || fl.eq a b

  unfoldable pub screen_to_canvas : Viewport fl.F → fl.F × fl.F → Option (fl.F × fl.F)
  screen_to_canvas vp p =
      let x = fl.div (fl.sub p.0 vp.origin.0) vp.scale in
      let y = fl.div (fl.sub p.1 vp.origin.1) vp.scale in
      if le vp.scale (fl.of_nat 0)
      then none
      else if fl.gt (fl.of_nat 0) x
          || (fl.gt (fl.of_nat 0) y || (fl.gt x vp.canvas.w || fl.gt y vp.canvas.h))
      then none
      else some (x, y)

  -- one font pixel in pixels of the screen
  unfoldable pub font_pixel : Viewport fl.F → TextSizing fl.F → fl.F → fl.F
  unfolding snes_ratio
  font_pixel vp (game_scaled mult) label_scale =
      fl.max (fl.mul (fl.mul (fl.div vp.scale (snes_ratio fl vp.canvas)) mult) label_scale)
        (fl.of_nat 1)
  font_pixel vp (fixed_screen px) label_scale = fl.max (fl.mul px label_scale) (fl.of_nat 1)

  -- the squares of a character's glyph from the pen's position on
  unfoldable pub glyph_squares : Font → fl.F → Color → fl.F × fl.F → ℕ → List (Filled fl.F)
  unfolding dots glyph
  glyph_squares f px paint pen ch =
      map
        (λ d. record {
          min =
              (fl.add pen.0 (fl.mul (fl.of_nat d.1) px), fl.add pen.1 (fl.mul (fl.of_nat d.0) px));
          size = (px, px);
          color = paint;
        })
        (dots f 0 (rows_of (glyph f ch)))

  -- the loop over the characters; `start` is where a line's pen starts
  unfoldable pub lay :
      Font → fl.F → Color → (start : fl.F) → fl.F × fl.F → List ℕ → List (Filled fl.F)
  unfolding glyph_squares advance line_advance
  lay f px paint start pen [] = []
  lay f px paint start pen (ch ∷ text) =
      let broken =
        lay f px paint start (start, fl.add pen.1 (fl.mul (fl.of_nat (line_advance f)) px)) text in
      let along =
        lay f px paint start (fl.add pen.0 (fl.mul (fl.of_nat (advance f)) px), pen.1) text in
      if ch == b'\n' then broken else glyph_squares f px paint pen ch ++ along

  unfoldable pub text_size : Font → fl.F → List ℕ → fl.F × fl.F
  unfolding split_lines columns advance line_advance
  text_size f px text =
      let line = fl.mul (fl.of_nat (line_advance f)) px in
      (
        fl.mul (fl.of_nat (columns (split_lines text))) (fl.mul (fl.of_nat (advance f)) px),
        fl.max (fl.mul (fl.of_nat (max (length (split_lines text)) 1)) line) line,
      )

  unfoldable pub anchor_x : TextAlign → fl.F → fl.F
  anchor_x left w = fl.of_nat 0
  anchor_x center w = fl.mul w (fl.lit 1 2)
  anchor_x right w = w

  unfoldable pub anchor_y : TextVAlign → fl.F → fl.F
  anchor_y top h = fl.of_nat 0
  anchor_y middle h = fl.mul h (fl.lit 1 2)
  anchor_y bottom h = h

  -- the rectangle behind a text that is not empty
  unfoldable pub background :
      (px : fl.F) → fl.F × fl.F → fl.F × fl.F → ℕ → Option Color → List (Filled fl.F)
  background px origin size widest none = []
  background px origin size widest (some b) =
      if widest == 0
      then []
      else record {
        min = (fl.sub origin.0 px, fl.sub origin.1 px);
        size = (fl.add size.0 (fl.mul (fl.of_nat 2) px), fl.add size.1 (fl.mul (fl.of_nat 2) px));
        color = b;
      }
        ∷ []

  -- the text, moved
  unfoldable pub lay_at :
      Font → fl.F → Color → fl.F × fl.F → List ℕ → fl.F × fl.F → List (Filled fl.F)
  unfolding lay
  lay_at f px paint origin text d =
      let pen : fl.F × fl.F = (fl.add origin.0 d.0, fl.add origin.1 d.1) in
      lay f px paint pen.0 pen text

  abbrev pub around : fl.F → List (fl.F × fl.F)
  around px =
      let z = fl.of_nat 0 in
      let n = fl.sub z px in
      (n, n) ∷ (z, n) ∷ (px, n) ∷ (n, z) ∷ (px, z) ∷ (n, px) ∷ (z, px) ∷ (px, px) ∷ []

  unfoldable pub outlined :
      Font → fl.F → fl.F × fl.F → List ℕ → List (fl.F × fl.F) → Option Color → List (Filled fl.F)
  unfolding lay_at
  outlined f px origin text ds none = []
  outlined f px origin text [] (some o) = []
  outlined f px origin text (d ∷ ds) (some o) =
      lay_at f px o origin text d ++ outlined f px origin text ds (some o)

  unfoldable pub paint_text :
      Viewport fl.F
      → (x y : fl.F) → List ℕ
      → Color
      → fl.F
      → Font
      → TextSizing fl.F
      → (bg outline : Option Color) → TextAlign
      → TextVAlign
      → List (Filled fl.F)
  unfolding pt font_pixel text_size anchor_x anchor_y background outlined lay_at
  paint_text vp x y text color label_scale f sizing bg outline align valign =
      let px = font_pixel vp sizing label_scale in
      let size = text_size f px text in
      let p = pt vp x y in
      let origin : fl.F × fl.F =
        (fl.sub p.0 (anchor_x align size.0), fl.sub p.1 (anchor_y valign size.1)) in
      background px origin size (columns (split_lines text)) bg
      ++ outlined f px origin text (around px) outline
      ++ lay_at f px color origin text (fl.of_nat 0, fl.of_nat 0)
