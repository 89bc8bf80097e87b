-- ===== src/Render/Font/Glyphs.antt =====
-- Every character has a glyph, and the glyph keeps to its cell.
use sni_lua.Common.{
  ℕ, zero, suc, ◌<◌, ◌^◌, ◌≡◌, refl, Bool, true, ◌&&◌, List, [], ◌∷◌, some, get_elem?, length, All,
  ltb, ltb→lt, ◌==◌, eq_of_==, and-eq-true, arith,
}
use sni_lua.Render.Font.{Font, small, normal, width, height, glyph_index, table, glyph}

-- the rows are as many as the cell's, and no row has a bit beyond the cell's width
pub record InCell (f : Font) (rows : List ℕ) : Type 0 where
  pub rows_fit : length rows ≡ height f
  pub bits_fit : All (λ row. row < 2 ^ width f) rows

unfoldable rows_narrow : ℕ → List ℕ → Bool
rows_narrow bound [] = true
rows_narrow bound (r ∷ rs) = ltb r bound && rows_narrow bound rs

unfoldable glyphs_fit : ℕ → ℕ → List (List ℕ) → Bool
unfolding rows_narrow
glyphs_fit h bound [] = true
glyphs_fit h bound (g ∷ gs) = (length g == h && rows_narrow bound g) && glyphs_fit h bound gs

rows_narrow-All :
    (bound : ℕ) (rs : List ℕ) → rows_narrow bound rs ≡ true → All (λ row. row < bound) rs
unfolding rows_narrow
rows_narrow-All bound [] h = tt
rows_narrow-All bound (r ∷ rs) h =
    let (a, b) = and-eq-true _ _ h in (ltb→lt r bound a, rows_narrow-All bound rs b)

glyph_at :
    (h bound i : ℕ) (gs : List (List ℕ))
    → glyphs_fit h bound gs ≡ true
    → i < length gs
    → (rows : List ℕ) × (get_elem? gs i ≡ some rows)
      × (length rows ≡ h)
      × All (λ row. row < bound) rows
unfolding glyphs_fit
glyph_at h bound i [] fit lt = ground arith
glyph_at h bound zero (g ∷ gs) fit lt =
    let (a, b) = and-eq-true _ _ fit in
    let (c, d) = and-eq-true _ _ a in (g, refl, eq_of_== (length g) h c, rows_narrow-All bound g d)
glyph_at h bound (suc i) (g ∷ gs) fit lt =
    let (a, b) = and-eq-true _ _ fit in glyph_at h bound i gs b (omega arith)

glyph_index-lt : (ch : ℕ) → glyph_index ch < 95
unfolding glyph_index
glyph_index-lt ch = ground arith

-- Every character, printable or not, has a glyph in both fonts, with as many rows as the font is
-- high, and no row has a pixel beyond the font's width: no index panics, and characters that are
-- one `advance` apart do not touch.
pub glyph-InCell : (f : Font) (ch : ℕ) → (rows : List ℕ) × (glyph f ch ≡ some rows) × InCell f rows
unfolding glyph glyphs_fit rows_narrow width height
glyph-InCell small ch =
    let (rows, e, l, b) = glyph_at 7 32 (glyph_index ch) (table small) refl (glyph_index-lt ch) in
    (rows, e, record { rows_fit = l; bits_fit = b })
glyph-InCell normal ch =
    let (rows, e, l, b) = glyph_at 8 256 (glyph_index ch) (table normal) refl (glyph_index-lt ch) in
    (rows, e, record { rows_fit = l; bits_fit = b })
