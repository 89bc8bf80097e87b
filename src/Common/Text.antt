-- ===== src/Common/Text.antt =====
-- Rust's `str` as the list of its bytes. Only ASCII literals are compared with it, so a byte and
-- a character agree wherever a test looks.
use Prim.Native.Char.{code}
use Prim.Native.Nat.{ℕ, ◌+◌}
use Prim.Native.String.{String}
use mathlib.Core.Bool.{Bool, true, false, ◌&&◌}
use mathlib.Core.List.{List, [], ◌∷◌}
use mathlib.Core.Path.{◌≡◌, refl, ap₂}
use native.Mathlib.Omega.{arith}
use mathlib.Core.Logic.{◌⊎◌, inl, inr}
use sni_lua.Common.Tests.{if◌then◌else◌, leb, ltb, ◌==◌, eq_of_==, Bool-cases}

abbrev pub Str : Type 0
Str = List ℕ

abbrev pub str : String → Str
str String.[] = []
str (String.◌∷◌ c s) = code c ∷ str s

unfoldable pub str_eq : Str → Str → Bool
str_eq [] [] = true
str_eq (a ∷ s) (b ∷ t) = a == b && str_eq s t
str_eq s t = false

-- the order of `str`, byte by byte
unfoldable pub str_lt : Str → Str → Bool
str_lt [] [] = false
str_lt [] (b ∷ t) = true
str_lt (a ∷ s) [] = false
str_lt (a ∷ s) (b ∷ t) = let rest = str_lt s t in if a == b then rest else ltb a b

-- one byte of `to_ascii_lowercase`
abbrev pub lower : ℕ → ℕ
lower c = if leb b'A' c && leb c b'Z' then c + 32 else c

abbrev pub to_ascii_lowercase : Str → Str
to_ascii_lowercase [] = []
to_ascii_lowercase (c ∷ s) = lower c ∷ to_ascii_lowercase s

pub str_eq→eq : (s t : Str) → str_eq s t ≡ true → s ≡ t
unfolding str_eq
str_eq→eq [] [] h = refl
str_eq→eq [] (b ∷ t) h = ground arith
str_eq→eq (a ∷ s) [] h = ground arith
str_eq→eq (a ∷ s) (b ∷ t) h = ground (arith, str_eq→eq s t)

pub str_eq_refl : (s : Str) → str_eq s s ≡ true
unfolding str_eq
str_eq_refl [] = refl
str_eq_refl (a ∷ s) = ground (arith, str_eq_refl s)

pub str_lt_irrefl : (s : Str) → str_lt s s ≡ false
unfolding str_lt
str_lt_irrefl [] = refl
str_lt_irrefl (a ∷ s) = ground (arith, str_lt_irrefl s)

pub str_lt_trans : (s t u : Str) → str_lt s t ≡ true → str_lt t u ≡ true → str_lt s u ≡ true
unfolding str_lt
str_lt_trans [] [] u h k = ground (arith, h)
str_lt_trans [] (b ∷ t) [] h k = ground (arith, k)
str_lt_trans [] (b ∷ t) (c ∷ u) h k = refl
str_lt_trans (a ∷ s) [] u h k = ground (arith, h)
str_lt_trans (a ∷ s) (b ∷ t) [] h k = ground (arith, k)
str_lt_trans (a ∷ s) (b ∷ t) (c ∷ u) h k = ground (arith, h, k, str_lt_trans s t u)

pub str_lt_total : (s t : Str) → (str_lt s t ≡ true) ⊎ ((s ≡ t) ⊎ (str_lt t s ≡ true))
unfolding str_lt
str_lt_total [] [] = inr (inl refl)
str_lt_total [] (b ∷ t) = inl refl
str_lt_total (a ∷ s) [] = inr (inr refl)
str_lt_total (a ∷ s) (b ∷ t) = elim (Bool-cases (a == b)) [
  | inl e ↦ elim (str_lt_total s t) [
    | inl h ↦ inl (rw e h)
    | inr (inl h) ↦ inr (inl (ap₂ ◌∷◌ (eq_of_== a b e) h))
    | inr (inr h) ↦ inr (inr (ground (arith, e, h)))
  ]
  | inr e ↦ elim (Bool-cases (ltb a b)) [
    | inl l ↦ inl (rw (e, l) refl)
    | inr l ↦ inr (inr (ground (arith, e, l)))
  ]
]

pub str_lt-str_eq : (s t : Str) → str_lt s t ≡ true → (str_eq s t ≡ false) × (str_eq t s ≡ false)
unfolding str_lt str_eq
str_lt-str_eq [] [] h = ground (arith, h)
str_lt-str_eq [] (b ∷ t) h = (refl, refl)
str_lt-str_eq (a ∷ s) [] h = (refl, refl)
str_lt-str_eq (a ∷ s) (b ∷ t) h =
    (ground (arith, h, str_lt-str_eq s t), ground (arith, h, str_lt-str_eq s t))

pub str_lt_asym : (s t : Str) → str_lt s t ≡ true → str_lt t s ≡ false
str_lt_asym s t h = elim (Bool-cases (str_lt t s)) [
  | inl e ↦ ground (arith, str_lt_trans s t s h e, str_lt_irrefl s)
  | inr e ↦ e
]

lower-lower : (c : ℕ) → lower (lower c) ≡ lower c
lower-lower c = ground arith

pub to_ascii_lowercase_idem :
    (s : Str) → to_ascii_lowercase (to_ascii_lowercase s) ≡ to_ascii_lowercase s
to_ascii_lowercase_idem [] = refl
to_ascii_lowercase_idem (c ∷ s) = ap₂ ◌∷◌ (lower-lower c) (to_ascii_lowercase_idem s)

-- a character goes to the front of the first line
unfoldable pub onto : ℕ → List Str → List Str
onto c [] = (c ∷ []) ∷ []
onto c (l ∷ ls) = (c ∷ l) ∷ ls

-- `split('\n')`
unfoldable pub split_lines : Str → List Str
unfolding onto
split_lines [] = [] ∷ []
split_lines (c ∷ s) = let rest = split_lines s in if c == b'\n' then [] ∷ rest else onto c rest

-- a text has a line, the empty one too
pub split_lines-Line : (s : Str) → (l : Str) × (ls : List Str) × (split_lines s ≡ l ∷ ls)
unfolding split_lines onto
split_lines-Line [] = ([], [], refl)
split_lines-Line (c ∷ s) = elim (Bool-cases (c == b'\n')) [
  | inl e ↦ ([], split_lines s, rw e refl)
  | inr e ↦ let (l, ls, q) = split_lines-Line s in (c ∷ l, ls, rw e (rw q refl))
]
