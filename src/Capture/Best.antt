-- ===== src/Capture/Best.antt =====
-- The format that is chosen.
use mathlib.Core.List.Permᴰ
use sni_lua.Common.Sort.{sort_by, sort_by-perm, sort_by-IsSorted, IsSorted}
use sni_lua.Common.{
  ℕ, ◌<◌, ◌≤◌, ◌≡◌, refl, ◌⊎◌, inl, inr, Bool, true, false, List, [], ◌∷◌, none, some, first,
  retain, All, All-perm, All-map_of, Memᴰ, arith, Bool-cases, Permᴰ, leb→le, leb_total, leb_trans,
}
use sni_lua.Capture.{
  CameraFormat, CaptureSettings, resolution_score, fps_score, format_area, comes_first,
  choose_format, before,
}

before-cases : (a b : ℕ) (r : Bool) → before a b r ≡ true → (a < b) ⊎ ((a ≡ b) × (r ≡ true))
unfolding before
before-cases a b r h = ground arith

before-total :
    (a b : ℕ) (r r' : Bool) → (r ≡ false → r' ≡ true) → before a b r ≡ false → before b a r' ≡ true
unfolding before
before-total a b true r' f h = ground arith
before-total a b false r' f h = ground (arith, f refl)

before_trans :
    (a b c : ℕ) (p q r : Bool)
    → (p ≡ true → q ≡ true → r ≡ true)
    → before a b p ≡ true
    → before b c q ≡ true
    → before a c r ≡ true
unfolding before
before_trans a b c p q r f h k = ground (arith, f)

before_trans_down :
    (a b c : ℕ) (p q r : Bool)
    → (p ≡ true → q ≡ true → r ≡ true)
    → before b a p ≡ true
    → before c b q ≡ true
    → before c a r ≡ true
before_trans_down a b c p q r f h k = before_trans c b a q p r (λ y x. f x y) k h

module _ {P : Type 0} (s : CaptureSettings) where
  -- `f` is as good as `g`: nearer to the wanted size, else to the wanted rate, else faster, else larger
  abbrev pub IsAsGood : CameraFormat P → CameraFormat P → Type 0
  IsAsGood f g =
      (resolution_score f s < resolution_score g s)
      ⊎ ((resolution_score f s ≡ resolution_score g s)
          × ((fps_score f s < fps_score g s)
              ⊎ ((fps_score f s ≡ fps_score g s)
                  × ((g.frame_rate < f.frame_rate)
                      ⊎ ((g.frame_rate ≡ f.frame_rate) × (format_area g ≤ format_area f))))))

  comes_first-IsAsGood : (f g : CameraFormat P) → comes_first s f g ≡ true → IsAsGood f g
  unfolding comes_first
  comes_first-IsAsGood f g h = elim (before-cases _ _ _ h) [
    | inl l ↦ inl l
    | inr (e, h) ↦ inr (
      e,
      elim (before-cases _ _ _ h) [
        | inl l ↦ inl l
        | inr (e, h) ↦
            inr (
              e,
              elim (before-cases _ _ _ h) [ inl l ↦ inl l | inr (e, h) ↦ inr (e, leb→le _ _ h) ],
            )
      ],
    )
  ]

  comes_first-total : (f g : CameraFormat P) → comes_first s f g ≡ false → comes_first s g f ≡ true
  unfolding comes_first
  comes_first-total f g = before-total (resolution_score f s) (resolution_score g s) _ _ (
      before-total (fps_score f s) (fps_score g s) _ _
        (before-total g.frame_rate f.frame_rate _ _ (leb_total (format_area g) (format_area f))))

  comes_first_trans :
      (f g h : CameraFormat P)
      → comes_first s f g ≡ true
      → comes_first s g h ≡ true
      → comes_first s f h ≡ true
  unfolding comes_first
  comes_first_trans f g h =
      before_trans (resolution_score f s) (resolution_score g s) (resolution_score h s) _ _ _ (
        before_trans (fps_score f s) (fps_score g s) (fps_score h s) _ _ _ (
          before_trans_down f.frame_rate g.frame_rate h.frame_rate _ _ _
            (λ p q. leb_trans (format_area h) (format_area g) (format_area f) q p)))

  comes_first_refl : (f : CameraFormat P) → comes_first s f f ≡ true
  comes_first_refl f = elim (Bool-cases (comes_first s f f)) [
    | inl e ↦ e
    | inr e ↦ comes_first-total f f e
  ]

  All-self : (l : List (CameraFormat P)) → All (λ f. Memᴰ f l) l
  All-self [] = tt
  All-self (f ∷ l) = (Memᴰ.head refl, All-map_of _ _ (λ g. Memᴰ.tail) l (All-self l))

  -- what the first of a sorted list is
  first_of :
      (l m : List (CameraFormat P))
      → Permᴰ l m
      → IsSorted (comes_first s) m
      → ((f : CameraFormat P) × (first m ≡ some f) × Memᴰ f l × All (IsAsGood f) l)
        ⊎ ((first m ≡ none) × (l ≡ []))
  first_of [] [] p h = inr (refl, refl)
  first_of (f ∷ l) [] p h = absurd (All-perm (λ x. ⊥) {xs = []} {ys = f ∷ l} (Permᴰ.symm p) tt).0
  first_of l (f ∷ m) p h = inl (
    f,
    refl,
    (All-perm (λ x. Memᴰ x l) p (All-self l)).0,
    All-map_of _ _ (comes_first-IsAsGood f) l
        (All-perm (λ g. comes_first s f g ≡ true) (Permᴰ.symm p) (comes_first_refl f, h.0)),
  )

  -- If some format of the camera can be decoded, the format chosen is one of those that can, and it is
  -- as good as each of them: by its distance from the wanted size, then from the wanted rate, then by
  -- its rate and last by its area. If none can, none is chosen.
  pub choose_format-IsAsGood :
      (decodes : P → Bool) (formats : List (CameraFormat P))
      → let usable = retain (λ f. decodes f.format) formats in
        ((f : CameraFormat P) × (choose_format decodes formats s ≡ some f)
          × Memᴰ f usable
          × All (IsAsGood f) usable)
        ⊎ ((choose_format decodes formats s ≡ none) × (usable ≡ []))
  unfolding choose_format
  choose_format-IsAsGood decodes formats =
      let usable = retain (λ f. decodes f.format) formats in
      first_of usable (sort_by (comes_first s) usable) (sort_by-perm (comes_first s) usable)
        (sort_by-IsSorted (comes_first s) comes_first-total comes_first_trans usable)
