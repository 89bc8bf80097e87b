-- ===== src/Config/Hash.antt =====
-- The name of a store's file tells the hash of the script's path.
use sni_lua.Common.{
  ℕ, zero, suc, ◌+◌, ◌-◌, ◌*◌, ◌/◌, ◌%◌, ◌^◌, ◌<◌, ◌≡◌, refl, sym, ap, ap₂, ◌∙◌, List, [], ◌∷◌,
  ◌++◌, Option, none, some, Str, str, ltb, if◌then◌else◌, arith, u64_mod, Bool, true, false, All,
  All-append, All-map_of, ◌≤◌, ◌≢◌, ◌⊎◌, inl, inr, Bool-cases, length, length-append, drop,
}
use Prim.Native.Nat.{bit_xor}
use native.Mathlib.Nat.{pow-succ', div-div-eq-div-mul}
use sni_lua.Config.{hex, hex_digit, fnv1a, fnv_offset, store_path_for, unwrap_or}

-- the value of a digit, and of a numeral
abbrev pub digit : ℕ → ℕ
digit c = if ltb c b'a' then c - b'0' else c - b'a' + 10

abbrev pub from_hex : ℕ → Str → ℕ
from_hex acc [] = acc
from_hex acc (c ∷ s) = from_hex (16 * acc + digit c) s

digit-hex_digit : (d : ℕ) → d < 16 → digit (hex_digit d) ≡ d
digit-hex_digit d h = ground arith

-- `h / 16 ^ n` is what the digits before have given
from_hex-hex : (n h : ℕ) → from_hex (h / 16 ^ n) (hex n h) ≡ h
unfolding hex
from_hex-hex zero h = omega arith
from_hex-hex (suc n) h =
    let q : h / 16 ^ suc n ≡ h / 16 ^ n / 16 =
      ap (λ m. h / m) {y = 16 ^ n * 16} (omega (arith, pow-succ' 16 n))
      ∙ sym (div-div-eq-div-mul h (16 ^ n) 16) in
    let d : digit (hex_digit ((h / 16 ^ n) % 16)) ≡ (h / 16 ^ n) % 16 =
      digit-hex_digit ((h / 16 ^ n) % 16) (omega arith) in
    let acc : 16 * (h / 16 ^ suc n) + digit (hex_digit ((h / 16 ^ n) % 16)) ≡ h / 16 ^ n =
      omega (arith, q, d) in
    ap (λ a. from_hex a (hex n h)) acc ∙ from_hex-hex n h

fnv1a-lt : (h : ℕ) (bs : List ℕ) → h < u64_mod → fnv1a h bs < u64_mod
unfolding fnv1a
fnv1a-lt h [] lt = lt
fnv1a-lt h (b ∷ bs) lt = fnv1a-lt ((bit_xor h b * 0x100000001b3) % u64_mod) bs (omega arith)

hex-injective : (h k : ℕ) → h < u64_mod → k < u64_mod → hex 16 h ≡ hex 16 k → h ≡ k
hex-injective h k lh lk e =
    let read : (x : ℕ) → x < u64_mod → from_hex 0 (hex 16 x) ≡ x =
      λ x lx. ap (λ a. from_hex a (hex 16 x)) {y = x / 16 ^ 16} (omega arith) ∙ from_hex-hex 16 x in
    sym (read h lh) ∙ ap (from_hex 0) e ∙ read k lk

length-hex : (n h : ℕ) → length (hex n h) ≡ n
unfolding hex
length-hex zero h = refl
length-hex (suc n) h = omega (arith, length-hex n h)

-- ends of the same length of equal texts are equal
append-eq_right : (s t r q : Str) → length r ≡ length q → s ++ r ≡ t ++ q → r ≡ q
append-eq_right [] [] r q l e = e
append-eq_right (c ∷ s) (d ∷ t) r q l e = append-eq_right s t r q l (ap (drop 1) e)
append-eq_right [] (d ∷ t) r q l e = absurd (omega (arith, l, ap length e, length-append (d ∷ t) q))
append-eq_right (c ∷ s) [] r q l e = absurd (omega (arith, l, ap length e, length-append (c ∷ s) r))

head_or : ℕ → Str → ℕ
head_or d [] = d
head_or d (c ∷ s) = c

append-eq_left : (s t r : Str) → length s ≡ length t → s ++ r ≡ t ++ r → s ≡ t
unfolding head_or
append-eq_left [] [] r l e = refl
append-eq_left (c ∷ s) (d ∷ t) r l e =
    let q = append-eq_left s t r (omega (arith, l)) (ap (drop 1) e) in ap₂ ◌∷◌ (ap (head_or 0) e) q
append-eq_left [] (d ∷ t) r l e = absurd (omega (arith, l))
append-eq_left (c ∷ s) [] r l e = absurd (omega (arith, l))

append_cancel : (s t r : Str) → s ++ r ≡ t ++ r → s ≡ t
append_cancel s t r e =
    append-eq_left s t r (omega (arith, ap length e, length-append s r, length-append t r)) e

-- no character of a separator, as the platform has them
abbrev pub IsPlain : (ℕ → Bool) → Str → Type 0
IsPlain is_separator = All (λ c. is_separator c ≡ false)

-- A platform's separators are among `/`, `\` and `:`.
abbrev pub AreSeparators : (ℕ → Bool) → Type 0
AreSeparators is_separator = (c : ℕ) → is_separator c ≡ true → (c ≡ b'/') ⊎ (c ≡ 92) ⊎ (c ≡ b':')

module _ (is_separator : ℕ → Bool) (known : AreSeparators is_separator) where
  plain : (c : ℕ) → c ≢ b'/' → c ≢ 92 → c ≢ b':' → is_separator c ≡ false
  plain c h₁ h₂ h₃ = elim (Bool-cases (is_separator c)) [
    | inl e ↦ elim (known c e) [
      | inl q ↦ absurd (h₁ q)
      | inr (inl q) ↦ absurd (h₂ q)
      | inr (inr q) ↦ absurd (h₃ q)
    ]
    | inr e ↦ e
  ]

  hex_digit-plain : (d : ℕ) → d < 16 → is_separator (hex_digit d) ≡ false
  hex_digit-plain d h =
      plain (hex_digit d) (λ q. ground (arith, h, q)) (λ q. ground (arith, h, q))
        (λ q. ground (arith, h, q))

  hex-IsPlain : (n h : ℕ) → IsPlain is_separator (hex n h)
  unfolding hex
  hex-IsPlain zero h = tt
  hex-IsPlain (suc n) h = (hex_digit-plain ((h / 16 ^ n) % 16) (omega arith), hex-IsPlain n h)

  -- a letter or a dot
  own : (c : ℕ) → (97 ≤ c) ⊎ (c ≡ 46) → is_separator c ≡ false
  own c h =
      plain c (λ q. ground (arith, h, q)) (λ q. ground (arith, h, q)) (λ q. ground (arith, h, q))

  own-IsPlain : (s : Str) → All (λ c. (97 ≤ c) ⊎ (c ≡ 46)) s → IsPlain is_separator s
  own-IsPlain = All-map_of _ _ own

  letter : {c : ℕ} → 97 ≤ c → (97 ≤ c) ⊎ (c ≡ 46)
  letter h = inl h

  script-IsPlain : IsPlain is_separator (str "script")
  script-IsPlain = own-IsPlain (str "script") (
    letter (omega arith),
    (
      letter (omega arith),
      (
        letter (omega arith),
        (letter (omega arith), (letter (omega arith), (letter (omega arith), tt))),
      ),
    ),
  )

  json-IsPlain : IsPlain is_separator (str ".json")
  json-IsPlain = own-IsPlain (str ".json") (
    inr refl,
    (
      letter (omega arith),
      (letter (omega arith), (letter (omega arith), (letter (omega arith), tt))),
    ),
  )

  stem-IsPlain :
      (stem : Option Str)
      → ((s : Str) → stem ≡ some s → IsPlain is_separator s)
      → IsPlain is_separator (unwrap_or stem (str "script"))
  stem-IsPlain none p = script-IsPlain
  stem-IsPlain (some s) p = p s refl

  name-IsPlain :
      (stem : Option Str) (h : ℕ)
      → ((s : Str) → stem ≡ some s → IsPlain is_separator s)
      → IsPlain is_separator (unwrap_or stem (str "script") ++ str "." ++ hex 16 h ++ str ".json")
  name-IsPlain stem h p =
      let Plain : ℕ → Type 0 = λ c. is_separator c ≡ false in
      let s = unwrap_or stem (str "script") in
      All-append Plain (s ++ str "." ++ hex 16 h) (str ".json")
        (All-append Plain (s ++ str ".") (hex 16 h)
          (All-append Plain s (str ".") (stem-IsPlain stem p)
            (own-IsPlain (str ".") (inr refl, tt)))
          (hex-IsPlain 16 h))
        json-IsPlain

-- Two scripts share a store's file only if the hashes of their paths, made absolute where they can be,
-- are equal: neither their names nor the writing of the hash in the file's name makes two of them meet.
-- What is asked of paths is that separators are among `/`, `\` and `:`, that a file's stem has none,
-- and that joining two different names without separators to one directory gives two paths.
pub store_path_for-hash :
    (is_separator : ℕ → Bool) (dir : Str) (join : Str → Str → Str)
    (canonicalize file_stem : Str → Option Str) (script other path : Str)
    → AreSeparators is_separator
    → ((p s : Str) → file_stem p ≡ some s → IsPlain is_separator s)
    → ((d a b : Str)
        → IsPlain is_separator a
        → IsPlain is_separator b
        → join d a ≡ join d b
        → a ≡ b)
    → store_path_for (some dir) join canonicalize file_stem script ≡ some path
    → store_path_for (some dir) join canonicalize file_stem other ≡ some path
    → fnv1a fnv_offset (unwrap_or (canonicalize script) script)
      ≡ fnv1a fnv_offset (unwrap_or (canonicalize other) other)
unfolding store_path_for
store_path_for-hash is_separator dir join canonicalize file_stem script other path known stems
      injective e e' =
    let h = fnv1a fnv_offset (unwrap_or (canonicalize script) script) in
    let k = fnv1a fnv_offset (unwrap_or (canonicalize other) other) in
    let s = unwrap_or (file_stem script) (str "script") ++ str "." in
    let t = unwrap_or (file_stem other) (str "script") ++ str "." in
    let same : s ++ hex 16 h ++ str ".json" ≡ t ++ hex 16 k ++ str ".json" =
      injective (join dir (str "store")) _ _
        (name-IsPlain is_separator known (file_stem script) h (stems script))
        (name-IsPlain is_separator known (file_stem other) k (stems other))
        (some_injective (e ∙ sym e')) in
    hex-injective h k (fnv1a-lt fnv_offset (unwrap_or (canonicalize script) script) (omega arith))
      (fnv1a-lt fnv_offset (unwrap_or (canonicalize other) other) (omega arith))
      (append-eq_right s t (hex 16 h) (hex 16 k) (length-hex 16 h ∙ sym (length-hex 16 k))
        (append_cancel (s ++ hex 16 h) (t ++ hex 16 k) (str ".json") same))
  where
    some_injective : {a b : Str} → Path (Option Str) (some a) (some b) → a ≡ b
    some_injective p = ground (arith, p)
