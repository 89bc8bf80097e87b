-- ===== src/Host/Lines.antt =====
-- The console keeps the newest lines.
use mathlib.Core.List.{append_assoc, append-nil}
use sni_lua.Common.{
  ℕ, zero, suc, ◌+◌, ◌-◌, ◌≤◌, ◌≡◌, refl, sym, ap, ◌∙◌, List, [], ◌∷◌, ◌++◌, drop, length,
  length-append, length-drop, Bool-cases, inl, inr, ltb, arith, Str,
}
use sni_lua.Host.{Console, console_max, push}

unfoldable pub push_all : List Str → Console → Console
push_all [] c = c
push_all (s ∷ ss) c = push_all ss (push s c)

-- the newest lines of a list
abbrev pub newest : List Str → List Str
newest l = drop (length l - console_max) l

drop-append : (n : ℕ) (xs ys : List Str) → n ≤ length xs → drop n (xs ++ ys) ≡ drop n xs ++ ys
drop-append zero xs ys h = refl
drop-append (suc n) [] ys h = ground arith
drop-append (suc n) (x ∷ xs) ys h = drop-append n xs ys (omega arith)

drop-empty : (n : ℕ) → drop {A = Str} n [] ≡ []
drop-empty zero = refl
drop-empty (suc n) = refl

drop-drop : (m n : ℕ) (xs : List Str) → drop m (drop n xs) ≡ drop (n + m) xs
drop-drop m zero xs = ap (λ k. drop k xs) (omega arith)
drop-drop zero (suc n) [] = sym (drop-empty (suc n + zero))
drop-drop (suc m) (suc n) [] = sym (drop-empty (suc n + suc m))
drop-drop m (suc n) (x ∷ xs) =
    drop-drop m n xs ∙ ap (λ k. drop k (x ∷ xs)) {x = suc (n + m)} {y = suc n + m} (omega arith)

lines-push : (s : Str) (c : Console) → (push s c).lines ≡ newest (c.lines ++ s ∷ [])
unfolding push
lines-push s c = elim (Bool-cases (ltb console_max (length (c.lines ++ s ∷ [])))) [
  | inl e ↦ rw e refl
  | inr e ↦ rw e (ap (λ n. drop n (c.lines ++ s ∷ [])) {x = 0} (ground arith))
]

newest-append : (a b : List Str) → newest (newest a ++ b) ≡ newest (a ++ b)
newest-append a b =
    let k = length a - console_max in
    let e : drop k a ++ b ≡ drop k (a ++ b) = sym (drop-append k a b (omega arith)) in
    ap newest e
    ∙ drop-drop (length (drop k (a ++ b)) - console_max) k (a ++ b)
    ∙ ap (λ n. drop n (a ++ b)) (rw (length-drop k (a ++ b)) (rw (length-append a b) (omega arith)))

newest-short : (l : List Str) → length l ≤ console_max → newest l ≡ l
newest-short l h = ap (λ n. drop n l) {y = 0} (omega arith)

length-newest : (l : List Str) → length (newest l) ≤ console_max
length-newest l = rw (length-drop (length l - console_max) l) (omega arith)

-- From a console within its limit of 500 lines, writing any lines one after another leaves the 500
-- newest of the old lines followed by the new ones, in their order: `push` drops oldest lines only,
-- and only those above the limit.
pub lines-push_all :
    (ss : List Str) (c : Console)
    → length c.lines ≤ console_max
    → (push_all ss c).lines ≡ newest (c.lines ++ ss)
unfolding push_all
lines-push_all [] c h = rw (append-nil c.lines) (sym (newest-short c.lines h))
lines-push_all (s ∷ ss) c h =
    lines-push_all ss (push s c) (rw (lines-push s c) (length-newest (c.lines ++ s ∷ [])))
    ∙ ap (λ l. newest (l ++ ss)) (lines-push s c)
    ∙ newest-append (c.lines ++ s ∷ []) ss
    ∙ ap newest (append_assoc c.lines (s ∷ []) ss)
