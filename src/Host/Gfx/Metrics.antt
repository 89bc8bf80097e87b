-- ===== src/Host/Gfx/Metrics.antt =====
-- `gfx.text_width` and `gfx.text_height`: the size of a text in the current font. The lines of a text
-- are those that `split('\n')` gives.
use sni_lua.Common.Float.{Float}
use sni_lua.Common.{
  ℕ, suc, ◌+◌, ◌≡◌, refl, ap, inl, inr, arith, Bool-cases, List, [], ◌∷◌, ◌++◌, Option, none, some,
  length, max, length-append, ◌∙◌, if◌then◌else◌, ◌==◌, onto, split_lines, split_lines-Line, ◌&&◌,
  leb, ltb, Str,
}
use sni_lua.Render.Font.{Font, advance, line_advance}

-- `chars().count()`: the bytes that begin a character
unfoldable pub char_count : Str → ℕ
char_count [] = 0
char_count (c ∷ s) = let rest = char_count s in if leb 0x80 c && ltb c 0xC0 then rest else suc rest

-- the characters of the widest line
unfoldable pub widest : List Str → ℕ
unfolding char_count
widest [] = 0
widest (l ∷ ls) = max (char_count l) (widest ls)

unfoldable pub line_count : Option Str → ℕ
unfolding split_lines
line_count none = 1
line_count (some s) = max (length (split_lines s)) 1

module _ (fl : Float) where
  unfoldable pub text_width : Font → Str → fl.F
  unfolding split_lines widest advance
  text_width f s = fl.mul (fl.of_nat (widest (split_lines s))) (fl.of_nat (advance f))

  unfoldable pub text_height : Font → Option Str → fl.F
  unfolding line_count line_advance
  text_height f s = fl.mul (fl.of_nat (line_count s)) (fl.of_nat (line_advance f))

onto-append :
    (c : ℕ) (s : Str) (ls : List Str) → onto c (split_lines s ++ ls) ≡ onto c (split_lines s) ++ ls
unfolding onto
onto-append c s ls = let (l, rest, q) = split_lines-Line s in rw q refl

split_lines-join : (s t : Str) → split_lines (s ++ b'\n' ∷ t) ≡ split_lines s ++ split_lines t
unfolding split_lines
split_lines-join [] t = refl
split_lines-join (c ∷ s) t = elim (Bool-cases (c == b'\n')) [
  | inl e ↦ rw e (ap (λ ls. [] ∷ ls) (split_lines-join s t))
  | inr e ↦ rw e (ap (λ ls. onto c ls) (split_lines-join s t) ∙ onto-append c s (split_lines t))
]

widest-append : (ls ks : List Str) → widest (ls ++ ks) ≡ max (widest ls) (widest ks)
unfolding widest
widest-append [] ks = omega arith
widest-append (l ∷ ls) ks = omega (arith, widest-append ls ks)

-- Two texts joined by a line break are as wide as the wider of them and as high as both together.
pub text_width-join :
    (fl : Float) (f : Font) (s t : Str)
    → let cols = λ (u : Str). widest (split_lines u) in
      (text_width fl f (s ++ b'\n' ∷ t)
        ≡ fl.mul (fl.of_nat (max (cols s) (cols t))) (fl.of_nat (advance f)))
      × (text_height fl f (some (s ++ b'\n' ∷ t))
          ≡ fl.mul
              (fl.of_nat (line_count (some s) + line_count (some t)))
              (fl.of_nat (line_advance f)))
unfolding text_width text_height line_count
text_width-join fl f s t =
    let j = split_lines-join s t in
    let (l, ls, p) = split_lines-Line s in
    let (k, ks, q) = split_lines-Line t in
    (
      ap (λ n. fl.mul (fl.of_nat n) (fl.of_nat (advance f)))
          (ap widest j ∙ widest-append (split_lines s) (split_lines t)),
      ap (λ n. fl.mul (fl.of_nat n) (fl.of_nat (line_advance f)))
          (omega (
            arith,
            ap length j,
            length-append (split_lines s) (split_lines t),
            ap length p,
            ap length q,
          )),
    )
