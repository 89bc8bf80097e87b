-- ===== src/Render/Font/Small.antt =====
-- `FONT_5X7`: the rows of each glyph from ' ' to '~'.
use sni_lua.Common.{ℕ, List, [], ◌∷◌}

abbrev pub font_5x7 : List (List ℕ)
font_5x7 =
    (0 ∷ 0 ∷ 0 ∷ 0 ∷ 0 ∷ 0 ∷ 0 ∷ [])
    ∷ (4 ∷ 4 ∷ 4 ∷ 4 ∷ 0 ∷ 0 ∷ 4 ∷ [])
    ∷ (10 ∷ 10 ∷ 10 ∷ 0 ∷ 0 ∷ 0 ∷ 0 ∷ [])
    ∷ (10 ∷ 10 ∷ 31 ∷ 10 ∷ 31 ∷ 10 ∷ 10 ∷ [])
    ∷ (4 ∷ 30 ∷ 5 ∷ 14 ∷ 20 ∷ 15 ∷ 4 ∷ [])
    ∷ (3 ∷ 19 ∷ 8 ∷ 4 ∷ 2 ∷ 25 ∷ 24 ∷ [])
    ∷ (6 ∷ 9 ∷ 5 ∷ 2 ∷ 21 ∷ 9 ∷ 22 ∷ [])
    ∷ (4 ∷ 4 ∷ 2 ∷ 0 ∷ 0 ∷ 0 ∷ 0 ∷ [])
    ∷ (8 ∷ 4 ∷ 2 ∷ 2 ∷ 2 ∷ 4 ∷ 8 ∷ [])
    ∷ (2 ∷ 4 ∷ 8 ∷ 8 ∷ 8 ∷ 4 ∷ 2 ∷ [])
    ∷ (0 ∷ 4 ∷ 21 ∷ 14 ∷ 21 ∷ 4 ∷ 0 ∷ [])
    ∷ (0 ∷ 4 ∷ 4 ∷ 31 ∷ 4 ∷ 4 ∷ 0 ∷ [])
    ∷ (0 ∷ 0 ∷ 0 ∷ 0 ∷ 0 ∷ 4 ∷ 2 ∷ [])
    ∷ (0 ∷ 0 ∷ 0 ∷ 31 ∷ 0 ∷ 0 ∷ 0 ∷ [])
    ∷ (0 ∷ 0 ∷ 0 ∷ 0 ∷ 0 ∷ 6 ∷ 6 ∷ [])
    ∷ (16 ∷ 16 ∷ 8 ∷ 4 ∷ 2 ∷ 1 ∷ 1 ∷ [])
    ∷ (14 ∷ 17 ∷ 25 ∷ 21 ∷ 19 ∷ 17 ∷ 14 ∷ [])
    ∷ (4 ∷ 6 ∷ 4 ∷ 4 ∷ 4 ∷ 4 ∷ 14 ∷ [])
    ∷ (14 ∷ 17 ∷ 16 ∷ 8 ∷ 4 ∷ 2 ∷ 31 ∷ [])
    ∷ (31 ∷ 8 ∷ 4 ∷ 8 ∷ 16 ∷ 17 ∷ 14 ∷ [])
    ∷ (8 ∷ 12 ∷ 10 ∷ 9 ∷ 31 ∷ 8 ∷ 8 ∷ [])
    ∷ (31 ∷ 1 ∷ 15 ∷ 16 ∷ 16 ∷ 17 ∷ 14 ∷ [])
    ∷ (12 ∷ 2 ∷ 1 ∷ 15 ∷ 17 ∷ 17 ∷ 14 ∷ [])
    ∷ (31 ∷ 16 ∷ 8 ∷ 4 ∷ 2 ∷ 2 ∷ 2 ∷ [])
    ∷ (14 ∷ 17 ∷ 17 ∷ 14 ∷ 17 ∷ 17 ∷ 14 ∷ [])
    ∷ (14 ∷ 17 ∷ 17 ∷ 30 ∷ 16 ∷ 8 ∷ 6 ∷ [])
    ∷ (0 ∷ 6 ∷ 6 ∷ 0 ∷ 6 ∷ 6 ∷ 0 ∷ [])
    ∷ (0 ∷ 6 ∷ 6 ∷ 0 ∷ 6 ∷ 4 ∷ 2 ∷ [])
    ∷ (8 ∷ 4 ∷ 2 ∷ 1 ∷ 2 ∷ 4 ∷ 8 ∷ [])
    ∷ (0 ∷ 0 ∷ 31 ∷ 0 ∷ 31 ∷ 0 ∷ 0 ∷ [])
    ∷ (2 ∷ 4 ∷ 8 ∷ 16 ∷ 8 ∷ 4 ∷ 2 ∷ [])
    ∷ (14 ∷ 17 ∷ 16 ∷ 8 ∷ 4 ∷ 0 ∷ 4 ∷ [])
    ∷ (14 ∷ 17 ∷ 16 ∷ 22 ∷ 21 ∷ 21 ∷ 14 ∷ [])
    ∷ (14 ∷ 17 ∷ 17 ∷ 31 ∷ 17 ∷ 17 ∷ 17 ∷ [])
    ∷ (15 ∷ 17 ∷ 17 ∷ 15 ∷ 17 ∷ 17 ∷ 15 ∷ [])
    ∷ (14 ∷ 17 ∷ 1 ∷ 1 ∷ 1 ∷ 17 ∷ 14 ∷ [])
    ∷ (15 ∷ 17 ∷ 17 ∷ 17 ∷ 17 ∷ 17 ∷ 15 ∷ [])
    ∷ (31 ∷ 1 ∷ 1 ∷ 15 ∷ 1 ∷ 1 ∷ 31 ∷ [])
    ∷ (31 ∷ 1 ∷ 1 ∷ 15 ∷ 1 ∷ 1 ∷ 1 ∷ [])
    ∷ (14 ∷ 17 ∷ 1 ∷ 29 ∷ 17 ∷ 17 ∷ 30 ∷ [])
    ∷ (17 ∷ 17 ∷ 17 ∷ 31 ∷ 17 ∷ 17 ∷ 17 ∷ [])
    ∷ (14 ∷ 4 ∷ 4 ∷ 4 ∷ 4 ∷ 4 ∷ 14 ∷ [])
    ∷ (28 ∷ 8 ∷ 8 ∷ 8 ∷ 8 ∷ 9 ∷ 6 ∷ [])
    ∷ (17 ∷ 9 ∷ 5 ∷ 3 ∷ 5 ∷ 9 ∷ 17 ∷ [])
    ∷ (1 ∷ 1 ∷ 1 ∷ 1 ∷ 1 ∷ 1 ∷ 31 ∷ [])
    ∷ (17 ∷ 27 ∷ 21 ∷ 21 ∷ 17 ∷ 17 ∷ 17 ∷ [])
    ∷ (17 ∷ 17 ∷ 19 ∷ 21 ∷ 25 ∷ 17 ∷ 17 ∷ [])
    ∷ (14 ∷ 17 ∷ 17 ∷ 17 ∷ 17 ∷ 17 ∷ 14 ∷ [])
    ∷ (15 ∷ 17 ∷ 17 ∷ 15 ∷ 1 ∷ 1 ∷ 1 ∷ [])
    ∷ (14 ∷ 17 ∷ 17 ∷ 17 ∷ 21 ∷ 9 ∷ 22 ∷ [])
    ∷ (15 ∷ 17 ∷ 17 ∷ 15 ∷ 5 ∷ 9 ∷ 17 ∷ [])
    ∷ (30 ∷ 1 ∷ 1 ∷ 14 ∷ 16 ∷ 16 ∷ 15 ∷ [])
    ∷ (31 ∷ 4 ∷ 4 ∷ 4 ∷ 4 ∷ 4 ∷ 4 ∷ [])
    ∷ (17 ∷ 17 ∷ 17 ∷ 17 ∷ 17 ∷ 17 ∷ 14 ∷ [])
    ∷ (17 ∷ 17 ∷ 17 ∷ 17 ∷ 17 ∷ 10 ∷ 4 ∷ [])
    ∷ (17 ∷ 17 ∷ 17 ∷ 21 ∷ 21 ∷ 27 ∷ 17 ∷ [])
    ∷ (17 ∷ 17 ∷ 10 ∷ 4 ∷ 10 ∷ 17 ∷ 17 ∷ [])
    ∷ (17 ∷ 17 ∷ 10 ∷ 4 ∷ 4 ∷ 4 ∷ 4 ∷ [])
    ∷ (31 ∷ 16 ∷ 8 ∷ 4 ∷ 2 ∷ 1 ∷ 31 ∷ [])
    ∷ (14 ∷ 2 ∷ 2 ∷ 2 ∷ 2 ∷ 2 ∷ 14 ∷ [])
    ∷ (1 ∷ 1 ∷ 2 ∷ 4 ∷ 8 ∷ 16 ∷ 16 ∷ [])
    ∷ (14 ∷ 8 ∷ 8 ∷ 8 ∷ 8 ∷ 8 ∷ 14 ∷ [])
    ∷ (4 ∷ 10 ∷ 17 ∷ 0 ∷ 0 ∷ 0 ∷ 0 ∷ [])
    ∷ (0 ∷ 0 ∷ 0 ∷ 0 ∷ 0 ∷ 0 ∷ 31 ∷ [])
    ∷ (2 ∷ 4 ∷ 8 ∷ 0 ∷ 0 ∷ 0 ∷ 0 ∷ [])
    ∷ (0 ∷ 0 ∷ 14 ∷ 16 ∷ 30 ∷ 17 ∷ 30 ∷ [])
    ∷ (1 ∷ 1 ∷ 13 ∷ 19 ∷ 17 ∷ 17 ∷ 15 ∷ [])
    ∷ (0 ∷ 0 ∷ 14 ∷ 1 ∷ 1 ∷ 17 ∷ 14 ∷ [])
    ∷ (16 ∷ 16 ∷ 22 ∷ 25 ∷ 17 ∷ 17 ∷ 30 ∷ [])
    ∷ (0 ∷ 0 ∷ 14 ∷ 17 ∷ 31 ∷ 1 ∷ 14 ∷ [])
    ∷ (12 ∷ 18 ∷ 2 ∷ 7 ∷ 2 ∷ 2 ∷ 2 ∷ [])
    ∷ (0 ∷ 30 ∷ 17 ∷ 17 ∷ 30 ∷ 16 ∷ 14 ∷ [])
    ∷ (1 ∷ 1 ∷ 13 ∷ 19 ∷ 17 ∷ 17 ∷ 17 ∷ [])
    ∷ (4 ∷ 0 ∷ 6 ∷ 4 ∷ 4 ∷ 4 ∷ 14 ∷ [])
    ∷ (8 ∷ 0 ∷ 12 ∷ 8 ∷ 8 ∷ 9 ∷ 6 ∷ [])
    ∷ (1 ∷ 1 ∷ 9 ∷ 5 ∷ 3 ∷ 5 ∷ 9 ∷ [])
    ∷ (6 ∷ 4 ∷ 4 ∷ 4 ∷ 4 ∷ 4 ∷ 14 ∷ [])
    ∷ (0 ∷ 0 ∷ 11 ∷ 21 ∷ 21 ∷ 17 ∷ 17 ∷ [])
    ∷ (0 ∷ 0 ∷ 13 ∷ 19 ∷ 17 ∷ 17 ∷ 17 ∷ [])
    ∷ (0 ∷ 0 ∷ 14 ∷ 17 ∷ 17 ∷ 17 ∷ 14 ∷ [])
    ∷ (0 ∷ 0 ∷ 15 ∷ 17 ∷ 15 ∷ 1 ∷ 1 ∷ [])
    ∷ (0 ∷ 0 ∷ 22 ∷ 25 ∷ 30 ∷ 16 ∷ 16 ∷ [])
    ∷ (0 ∷ 0 ∷ 13 ∷ 19 ∷ 1 ∷ 1 ∷ 1 ∷ [])
    ∷ (0 ∷ 0 ∷ 30 ∷ 1 ∷ 14 ∷ 16 ∷ 15 ∷ [])
    ∷ (2 ∷ 2 ∷ 7 ∷ 2 ∷ 2 ∷ 18 ∷ 12 ∷ [])
    ∷ (0 ∷ 0 ∷ 17 ∷ 17 ∷ 17 ∷ 25 ∷ 22 ∷ [])
    ∷ (0 ∷ 0 ∷ 17 ∷ 17 ∷ 17 ∷ 10 ∷ 4 ∷ [])
    ∷ (0 ∷ 0 ∷ 17 ∷ 17 ∷ 21 ∷ 21 ∷ 10 ∷ [])
    ∷ (0 ∷ 0 ∷ 17 ∷ 10 ∷ 4 ∷ 10 ∷ 17 ∷ [])
    ∷ (0 ∷ 0 ∷ 17 ∷ 17 ∷ 30 ∷ 16 ∷ 14 ∷ [])
    ∷ (0 ∷ 0 ∷ 31 ∷ 8 ∷ 4 ∷ 2 ∷ 31 ∷ [])
    ∷ (8 ∷ 4 ∷ 4 ∷ 2 ∷ 4 ∷ 4 ∷ 8 ∷ [])
    ∷ (4 ∷ 4 ∷ 4 ∷ 4 ∷ 4 ∷ 4 ∷ 4 ∷ [])
    ∷ (2 ∷ 4 ∷ 4 ∷ 8 ∷ 4 ∷ 4 ∷ 2 ∷ [])
    ∷ (0 ∷ 0 ∷ 2 ∷ 21 ∷ 8 ∷ 0 ∷ 0 ∷ [])
    ∷ []
