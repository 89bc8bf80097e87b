-- ===== src/Controls/Lookup.antt =====
-- Finding a control by its id.
use sni_lua.Common.{
  ◌≡◌, refl, sym, ◌∙◌, true, false, List, [], ◌∷◌, Memᴰ, Option, some, any, find, Bool-cases,
  Option-cases, inl, inr, arith, Str, ap, str_eq, str_eq→eq, str_eq_refl, All, ◌≢◌, none, ◌⊎◌,
}
use sni_lua.Controls.{Control, Controls, id, has_id, is_some, is_empty, get}

module _ {F : Type 0} where
  has_id→eq : (key : Str) (c : Control F) → has_id key c ≡ true → id c ≡ some key
  unfolding has_id
  has_id→eq key c h = elim (Option-cases (id c)) [
    | inl e ↦ let no : false ≡ true = (rw (has_id, e) at h) in ground (arith, no)
    | inr (i, e) ↦
        let same : str_eq i key ≡ true = (rw (has_id, e) at h) in e ∙ ap some (str_eq→eq i key same)
  ]

  find-some :
      (key : Str) (cs : List (Control F)) (c : Control F)
      → find (has_id key) cs ≡ some c
      → Memᴰ c cs × (id c ≡ some key)
  find-some key [] c h = ground (arith, h)
  find-some key (d ∷ cs) c h = elim (Bool-cases (has_id key d)) [
    | inl e ↦
        let same : d ≡ c = some_injective (rw e at h) in
        (Memᴰ.head (sym same), ap id (sym same) ∙ has_id→eq key d e)
    | inr e ↦ let (m, q) = find-some key cs c (rw e at h) in (Memᴰ.tail m, q)
  ]
    where
      some_injective : {a b : Control F} → Path (Option (Control F)) (some a) (some b) → a ≡ b
      some_injective p = ground (arith, p)

  has_id-id : (c : Control F) (key : Str) → id c ≡ some key → has_id key c ≡ true
  unfolding has_id
  has_id-id c key e = rw (has_id, e) (str_eq_refl key)

  find-none :
      (key : Str) (cs : List (Control F))
      → find (has_id key) cs ≡ none
      → All (λ c. id c ≢ some key) cs
  find-none key [] h = tt
  find-none key (d ∷ cs) h = elim (Bool-cases (has_id key d)) [
    | inl e ↦ let no : Path (Option (Control F)) (some d) none = (rw e at h) in ground (arith, no)
    | inr e ↦ ((λ q. true_is_not_false (sym (has_id-id d key q) ∙ e)), find-none key cs (rw e at h))
  ]
    where
      true_is_not_false : true ≢ false
      true_is_not_false p = ground (arith, p)

  find-unnamed :
      (key : Str) (cs : List (Control F))
      → any (λ c. is_some (id c)) cs ≡ false
      → find (has_id key) cs ≡ none
  unfolding has_id
  find-unnamed key [] h = refl
  find-unnamed key (d ∷ cs) h = elim (Option-cases (id d)) [
    | inr (i, e) ↦ let no : true ≡ false = (rw e at h) in ground (arith, no)
    | inl e ↦
        let other : has_id key d ≡ false = rw (has_id, e) refl in
        rw other (find-unnamed key cs (rw e at h))
  ]

  -- A lookup either finds a control of the panel that has that id, or finds nothing and no control of
  -- the panel has it; a panel that counts as empty is one in which nothing is found.
  pub get_complete :
      (cs : Controls F) (key : Str)
      → (((c : Control F) × (get cs key ≡ some c) × Memᴰ c cs.items × (id c ≡ some key))
          ⊎ ((get cs key ≡ none) × All (λ c. id c ≢ some key) cs.items))
        × ((is_empty cs ≡ false) ⊎ (get cs key ≡ none))
  unfolding get is_empty
  get_complete cs key = (
    elim (Option-cases (find (has_id key) cs.items)) [
      | inr (c, e) ↦ let (m, q) = find-some key cs.items c e in inl (c, e, m, q)
      | inl e ↦ inr (e, find-none key cs.items e)
    ],
    elim (Bool-cases (any (λ c. is_some (id c)) cs.items)) [
      | inl e ↦ inl (rw e refl)
      | inr e ↦ inr (find-unnamed key cs.items e)
    ],
  )
