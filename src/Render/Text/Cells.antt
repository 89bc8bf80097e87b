-- ===== src/Render/Text/Cells.antt =====
-- Where a text's ink lies: line by line, and in each line column by column.
use mathlib.Core.List.{map-append, append_assoc}
use sni_lua.Common.Float.{Float}
use sni_lua.Common.{
  ℕ, zero, suc, ◌+◌, ◌<◌, ◌≤◌, ◌≡◌, refl, sym, ap, ◌∙◌, arith, Bool-cases, inl, inr, List, [], ◌∷◌,
  ◌++◌, map, max, length, All, All-append, All-map, All-map_of, ◌==◌, ◌/◌, ◌%◌, ◌^◌, onto,
  split_lines, split_lines-Line,
}
use sni_lua.Render.Font.Glyphs.{glyph-InCell}
use sni_lua.Render.Font.{Font, width, height, advance, line_advance, glyph}
use sni_lua.Render.Text.{Filled, row_bits, dots, rows_of, glyph_squares, lay, columns, text_size}
use sni_lua.Render.{Color}

-- one pixel of a glyph at its place in a text
pub record Cell : Type 0 where
  pub line : ℕ
  pub column : ℕ
  pub row : ℕ
  pub bit : ℕ

abbrev pub cells_of : Font → ℕ → ℕ → ℕ → List Cell
cells_of f i j ch =
    map (λ d. record { line = i; column = j; row = d.0; bit = d.1 })
      (dots f 0 (rows_of (glyph f ch)))

-- the ink of a line, from a column on, and of the lines from one on
unfoldable pub line_cells : Font → ℕ → ℕ → List ℕ → List Cell
line_cells f i j [] = []
line_cells f i j (ch ∷ l) = cells_of f i j ch ++ line_cells f i (suc j) l

unfoldable pub cells : Font → ℕ → List (List ℕ) → List Cell
unfolding line_cells
cells f i [] = []
cells f i (l ∷ ls) = line_cells f i 0 l ++ cells f (suc i) ls

-- within a number of lines and of columns, and within the character's cell
abbrev pub InBox : Font → ℕ → ℕ → Cell → Type 0
InBox f lines cols c = (c.line < lines) × (c.column < cols) × (c.row < height f) × (c.bit < width f)

row_bits-Below : (count from bits : ℕ) → All (λ b. b < from + count) (row_bits count from bits)
unfolding row_bits
row_bits-Below zero from bits = tt
row_bits-Below (suc count) from bits =
    let rest : All (λ b. b < from + suc count) (row_bits count (suc from) bits) =
      All-map_of _ _ (λ b h. omega (arith, h)) (row_bits count (suc from) bits)
        (row_bits-Below count (suc from) bits) in
    elim (Bool-cases ((bits / 2 ^ from) % 2 == 1)) [
      | inl e ↦ rw e (omega arith, rest)
      | inr e ↦ rw e rest
    ]

dots-Below :
    (f : Font) (row : ℕ) (rows : List ℕ)
    → All (λ d. (d.0 < row + length rows) × (d.1 < width f)) (dots f row rows)
unfolding dots
dots-Below f row [] = tt
dots-Below f row (bits ∷ rows) =
    All-append _ (map (λ bit. (row, bit)) (row_bits (width f) 0 bits)) (dots f (suc row) rows)
      (All-map _ (λ bit. (row, bit)) (row_bits (width f) 0 bits)
        (All-map_of _ _ (λ b h. (omega arith, omega (arith, h))) (row_bits (width f) 0 bits)
          (row_bits-Below (width f) 0 bits)))
      (All-map_of _ _ (λ d h. (omega (arith, h.0), h.1)) (dots f (suc row) rows)
        (dots-Below f (suc row) rows))

cells_of-InBox :
    (f : Font) (i j ch lines cols : ℕ)
    → i < lines
    → j < cols
    → All (InBox f lines cols) (cells_of f i j ch)
cells_of-InBox f i j ch lines cols hi hj =
    let (rows, e, fits) = glyph-InCell f ch in
    All-map _ _ (dots f 0 (rows_of (glyph f ch))) (
      rw e (
        All-map_of _ _ (λ d h. (hi, hj, omega (arith, h.0, fits.rows_fit), h.1)) (dots f 0 rows)
          (dots-Below f 0 rows)))

line_cells-InBox :
    (f : Font) (i j : ℕ) (l : List ℕ) (lines cols : ℕ)
    → i < lines
    → j + length l ≤ cols
    → All (InBox f lines cols) (line_cells f i j l)
unfolding line_cells
line_cells-InBox f i j [] lines cols hi hj = tt
line_cells-InBox f i j (ch ∷ l) lines cols hi hj =
    All-append _ (cells_of f i j ch) (line_cells f i (suc j) l)
      (cells_of-InBox f i j ch lines cols hi (omega (arith, hj)))
      (line_cells-InBox f i (suc j) l lines cols hi (omega (arith, hj)))

cells-InBox :
    (f : Font) (i : ℕ) (ls : List (List ℕ)) (lines cols : ℕ)
    → i + length ls ≤ lines
    → columns ls ≤ cols
    → All (InBox f lines cols) (cells f i ls)
unfolding cells columns
cells-InBox f i [] lines cols hi hj = tt
cells-InBox f i (l ∷ ls) lines cols hi hj =
    All-append _ (line_cells f i 0 l) (cells f (suc i) ls)
      (line_cells-InBox f i 0 l lines cols (omega (arith, hi)) (omega (arith, hj)))
      (cells-InBox f (suc i) ls lines cols (omega (arith, hi)) (omega (arith, hj)))

-- the same, the first line from a column on
abbrev cells_from : Font → ℕ → ℕ → List (List ℕ) → List Cell
cells_from f i j [] = []
cells_from f i j (l ∷ ls) = line_cells f i j l ++ cells f (suc i) ls

cells_from_start : (f : Font) (i : ℕ) (ls : List (List ℕ)) → cells_from f i 0 ls ≡ cells f i ls
unfolding cells
cells_from_start f i [] = refl
cells_from_start f i (l ∷ ls) = refl

module _ (fl : Float) (f : Font) (px : fl.F) (paint : Color) (start top : fl.F) where
  -- a number of steps from a position on
  abbrev pub stepped : fl.F → fl.F → ℕ → fl.F
  stepped x d zero = x
  stepped x d (suc n) = fl.add (stepped x d n) d

  abbrev pub pen_of : ℕ → ℕ → fl.F × fl.F
  pen_of i j = (
    stepped start (fl.mul (fl.of_nat (advance f)) px) j,
    stepped top (fl.mul (fl.of_nat (line_advance f)) px) i,
  )

  abbrev pub square : Cell → Filled fl.F
  square c = record {
    min = (
      fl.add (pen_of c.line c.column).0 (fl.mul (fl.of_nat c.bit) px),
      fl.add (pen_of c.line c.column).1 (fl.mul (fl.of_nat c.row) px),
    );
    size = (px, px);
    color = paint;
  }

  squares-cells_of :
      (i j ch : ℕ) → glyph_squares fl f px paint (pen_of i j) ch ≡ map square (cells_of f i j ch)
  unfolding glyph_squares
  squares-cells_of i j ch = sym (map_map (dots f 0 (rows_of (glyph f ch))))
    where
      map_map :
          (ds : List (ℕ × ℕ))
          → map square (map (λ d. record { line = i; column = j; row = d.0; bit = d.1 }) ds)
            ≡ map (λ d. square (record { line = i; column = j; row = d.0; bit = d.1 })) ds
      map_map [] = refl
      map_map (d ∷ ds) =
          ap (λ r. square (record { line = i; column = j; row = d.0; bit = d.1 }) ∷ r) (map_map ds)

  onto-cells :
      (i j ch : ℕ) (ls : List (List ℕ)) (l : List ℕ) (ks : List (List ℕ))
      → ls ≡ l ∷ ks
      → map square (cells_from f i j (onto ch ls))
        ≡ map square (cells_of f i j ch) ++ map square (cells_from f i (suc j) ls)
  unfolding onto line_cells
  onto-cells i j ch ls l ks q = rw q (
      ap (λ c. map square c)
        (append_assoc (cells_of f i j ch) (line_cells f i (suc j) l) (cells f (suc i) ks))
      ∙ map-append square (cells_of f i j ch) (line_cells f i (suc j) l ++ cells f (suc i) ks))

  lay-cells_from :
      (i j : ℕ) (text : List ℕ)
      → lay fl f px paint start (pen_of i j) text ≡ map square (cells_from f i j (split_lines text))
  unfolding lay split_lines line_cells cells
  lay-cells_from i j [] = refl
  lay-cells_from i j (ch ∷ text) = elim (Bool-cases (ch == b'\n')) [
    | inl e ↦ rw e (
        lay-cells_from (suc i) 0 text
        ∙ ap (λ c. map square c) (cells_from_start f (suc i) (split_lines text)))
    | inr e ↦
        let (l, ks, q) = split_lines-Line text in
        rw e (
          ap (λ r. r ++ lay fl f px paint start (pen_of i (suc j)) text) (squares-cells_of i j ch)
          ∙ ap (λ r. map square (cells_of f i j ch) ++ r) (lay-cells_from i (suc j) text)
          ∙ sym (onto-cells i j ch (split_lines text) l ks q))
  ]

  -- The loop over a text's characters paints the ink of its lines: each pixel of a character's glyph is
  -- a square, at the pen's position after as many line steps as there are lines before and as many
  -- character steps as there are characters before in the line. Every pixel is in one of the lines, in
  -- one of the columns of the widest of them, and in its character's cell; and the size by which a text
  -- is measured, for its background and its alignment, is that of as many columns and as many lines,
  -- the height being no less than a line's.
  pub lay-cells :
      (text : List ℕ)
      → (lay fl f px paint start (start, top) text ≡ map square (cells f 0 (split_lines text)))
        × All
            (InBox f (length (split_lines text)) (columns (split_lines text)))
            (cells f 0 (split_lines text))
        × (text_size fl f px text ≡ (
          fl.mul (fl.of_nat (columns (split_lines text))) (fl.mul (fl.of_nat (advance f)) px),
          fl.max
              (fl.mul
                (fl.of_nat (length (split_lines text)))
                (fl.mul (fl.of_nat (line_advance f)) px))
              (fl.mul (fl.of_nat (line_advance f)) px),
        ))
  unfolding text_size
  lay-cells text = (
    lay-cells_from 0 0 text ∙ ap (λ c. map square c) (cells_from_start f 0 (split_lines text)),
    cells-InBox f 0 (split_lines text) (length (split_lines text)) (columns (split_lines text))
        (omega arith) (omega arith),
    (let (l, ls, q) = split_lines-Line text in
        let n : max (length (split_lines text)) 1 ≡ length (split_lines text) =
          omega (arith, ap length q) in
        ap
          (λ n. (
            fl.mul (fl.of_nat (columns (split_lines text))) (fl.mul (fl.of_nat (advance f)) px),
            fl.max (fl.mul (fl.of_nat n) (fl.mul (fl.of_nat (line_advance f)) px))
                (fl.mul (fl.of_nat (line_advance f)) px),
          ))
          n),
  )
