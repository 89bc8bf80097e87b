-- ===== src/Common/Map.antt =====
-- `BTreeMap` and `HashMap` with integer keys: an association list in key order. The laws below
-- hold of every list, so a client needs the order only where it reads the values in sequence.
use Prim.Native.Nat.{ℕ, suc, ◌≤◌, ◌<◌}
use mathlib.Core.Bool.{Bool, true, false}
use mathlib.Core.List.{List, [], ◌∷◌, map, Memᴰ}
use mathlib.Core.Option.{Option, none, some}
use mathlib.Core.Logic.{◌≢◌, ◌⊎◌, inl, inr}
use mathlib.Core.Path.{◌≡◌, refl, sym, subst}
use native.Mathlib.Omega.{arith}
use sni_lua.Common.Tests.{if◌then◌else◌, ltb, ◌==◌, Bool-cases, eq_of_==}
use sni_lua.Common.Lists.{All}

abbrev pub Map {ℓ} : Type ℓ → Type ℓ
Map V = List (ℕ × V)

module _ {ℓ} {V : Type ℓ} where
  abbrev pub empty : Map V
  empty = []

  unfoldable pub get : ℕ → Map V → Option V
  get k [] = none
  get k ((j, v) ∷ m) = let rest = get k m in if j == k then some v else rest

  unfoldable pub insert : ℕ → V → Map V → Map V
  insert k v [] = (k, v) ∷ []
  insert k v ((j, w) ∷ m) =
      let rest = insert k v m in
      if ltb k j then (k, v) ∷ (j, w) ∷ m else if j == k then (k, v) ∷ m else (j, w) ∷ rest

  unfoldable pub remove : ℕ → Map V → Map V
  remove k [] = []
  remove k ((j, v) ∷ m) = let rest = remove k m in if j == k then rest else (j, v) ∷ rest

  -- `retain` with a test on the key
  unfoldable pub retain_keys : (ℕ → Bool) → Map V → Map V
  retain_keys p [] = []
  retain_keys p ((j, v) ∷ m) = let rest = retain_keys p m in if p j then (j, v) ∷ rest else rest

  -- `get_mut` and an assignment through it: an absent key changes nothing
  unfoldable pub update : ℕ → (V → V) → Map V → Map V
  update k f [] = []
  update k f ((j, v) ∷ m) =
      let rest = update k f m in if j == k then (j, f v) ∷ rest else (j, v) ∷ rest

  -- `iter().map(|(k, v)| (*k, f(v))).collect()`
  unfoldable pub map_values : (V → V) → Map V → Map V
  map_values f [] = []
  map_values f ((j, v) ∷ m) = (j, f v) ∷ map_values f m

  pub get-map_values :
      (f : V → V) (j : ℕ) (m : Map V)
      → get j (map_values f m) ≡ elim (get j m) [ none ↦ none | some v ↦ some (f v) ]
  unfolding get map_values
  get-map_values f j [] = refl
  get-map_values f j ((i, w) ∷ m) = ground (arith, get-map_values f j m)

  abbrev pub keys : Map V → List ℕ
  keys = map (λ e. e.0)

  abbrev pub values : Map V → List V
  values = map (λ e. e.1)

  abbrev pub contains_key : ℕ → Map V → Bool
  contains_key k m = elim (get k m) [ none ↦ false | some _ ↦ true ]

  pub get-insert :
      (k j : ℕ) (v : V) (m : Map V) → get j (insert k v m) ≡ (if k == j then some v else get j m)
  unfolding get insert
  get-insert k j v [] = refl
  get-insert k j v ((i, w) ∷ m) = ground (arith, get-insert k j v m)

  pub get-remove : (k j : ℕ) (m : Map V) → get j (remove k m) ≡ (if k == j then none else get j m)
  unfolding get remove
  get-remove k j [] = ground arith
  get-remove k j ((i, w) ∷ m) = ground (arith, get-remove k j m)

  pub get-retain_keys :
      (p : ℕ → Bool) (j : ℕ) (m : Map V) → get j (retain_keys p m) ≡ (if p j then get j m else none)
  unfolding get retain_keys
  get-retain_keys p j [] = ground arith
  get-retain_keys p j ((i, w) ∷ m) = ground (arith, get-retain_keys p j m)

  pub get-update :
      (k j : ℕ) (f : V → V) (m : Map V)
      → get j (update k f m)
        ≡ elim (get j m) [ none ↦ none | some v ↦ some (if k == j then f v else v) ]
  unfolding get update
  get-update k j f [] = refl
  get-update k j f ((i, w) ∷ m) = ground (arith, get-update k j f m)

  pub get-update_ne :
      (k j : ℕ) (f : V → V) (m : Map V) → (k == j) ≡ false → get j (update k f m) ≡ get j m
  unfolding get update
  get-update_ne k j f [] h = refl
  get-update_ne k j f ((i, w) ∷ m) h = ground (arith, get-update_ne k j f m h)

  -- Keys strictly ascending, from a lower bound on.
  abbrev pub Ascending : ℕ → Map V → Type 0
  Ascending lo [] = Unit
  Ascending lo (e ∷ m) = (lo ≤ e.0) × Ascending (suc e.0) m

  pub Ascending-mono : (lo lo' : ℕ) (m : Map V) → lo' ≤ lo → Ascending lo m → Ascending lo' m
  Ascending-mono lo lo' [] h a = tt
  Ascending-mono lo lo' (e ∷ m) h a = (omega arith, a.1)

  pub insert-Ascending :
      (lo k : ℕ) (v : V) (m : Map V) → lo ≤ k → Ascending lo m → Ascending lo (insert k v m)
  unfolding insert
  insert-Ascending lo k v [] h a = (h, tt)
  insert-Ascending lo k v ((j, w) ∷ m) h a = ground (arith, insert-Ascending (suc j) k v m)

  pub remove-Ascending : (lo k : ℕ) (m : Map V) → Ascending lo m → Ascending lo (remove k m)
  unfolding remove
  remove-Ascending lo k [] a = tt
  remove-Ascending lo k ((j, w) ∷ m) a =
      ground (arith, remove-Ascending (suc j) k m, Ascending-mono (suc j) lo (remove k m))

  pub update-Ascending :
      (lo k : ℕ) (f : V → V) (m : Map V) → Ascending lo m → Ascending lo (update k f m)
  unfolding update
  update-Ascending lo k f [] a = tt
  update-Ascending lo k f ((j, w) ∷ m) a = ground (arith, update-Ascending (suc j) k f m)

  -- An absent key below which all keys lie is inserted at the end.
  pub All-keys_insert :
      (P : ℕ × V → Type ℓ) (k : ℕ) (v : V) (m : Map V) → P (k, v) → All P m → All P (insert k v m)
  unfolding insert
  All-keys_insert P k v [] p h = (p, tt)
  All-keys_insert P k v ((j, w) ∷ m) p h = ground (arith, All-keys_insert P k v m p h.1)

  pub All-remove : (P : ℕ × V → Type 0) (k : ℕ) (m : Map V) → All P m → All P (remove k m)
  unfolding remove
  All-remove P k [] h = tt
  All-remove P k ((j, w) ∷ m) h = ground (arith, All-remove P k m h.1)

  pub All-update :
      (P Q : ℕ × V → Type 0) (k : ℕ) (f : V → V)
      → ((v : V) → P (k, v) → Q (k, f v))
      → ((e : ℕ × V) → P e → Q e)
      → (m : Map V) → All P m
      → All Q (update k f m)
  unfolding update
  All-update P Q k f hit other [] h = tt
  All-update P Q k f hit other ((j, w) ∷ m) h = elim (Bool-cases (j == k)) [
    | inl e ↦
        rw (e, update)
          (
            subst (λ i. Q (i, f w)) (sym (eq_of_== j k e))
                (hit w (subst (λ i. P (i, w)) (eq_of_== j k e) h.0)),
            All-update P Q k f hit other m h.1,
          )
    | inr e ↦ rw (e, update) (other (j, w) h.0, All-update P Q k f hit other m h.1)
  ]

  -- A key at which nothing can stand is absent.
  pub get-none_of_All : (k : ℕ) (m : Map V) → All (λ e. e.0 ≢ k) m → get k m ≡ none
  unfolding get
  get-none_of_All k [] h = refl
  get-none_of_All k ((j, w) ∷ m) h = ground (arith, h.0, get-none_of_All k m h.1)

  -- What holds of every entry holds of the entry that a lookup finds.
  pub All-get :
      (P : ℕ × V → Type 0) (k : ℕ) (m : Map V) (v : V) → All P m → get k m ≡ some v → P (k, v)
  unfolding get
  All-get P k [] v h e = cc
  All-get P k ((j, w) ∷ m) v h e = elim (Bool-cases (j == k)) [
    | inl q ↦
        let same : w ≡ v = ground arith in
        subst (λ i. P (i, v)) (eq_of_== j k q) (subst (λ x. P (j, x)) same h.0)
    | inr q ↦ All-get P k m v h.1 (ground arith)
  ]

  -- A lookup names the one entry of its key.
  pub get_unique :
      (lo k : ℕ) (m : Map V) (v : V)
      → Ascending lo m
      → get k m ≡ some v
      → All (λ e. (e.0 ≢ k) ⊎ (e.1 ≡ v)) m
  unfolding get
  get_unique lo k [] v a h = tt
  get_unique lo k ((j, w) ∷ m) v a h = elim (Bool-cases (j == k)) [
    | inl e ↦ (inr (ground arith), All-above (suc j) k m (ground arith) a.1)
    | inr e ↦ (inl (ground arith), get_unique (suc j) k m v a.1 (ground arith))
  ]
    where
      All-above :
          (lo k : ℕ) (m : Map V) → k < lo → Ascending lo m → All (λ e. (e.0 ≢ k) ⊎ (e.1 ≡ v)) m
      All-above lo k [] h a = tt
      All-above lo k (e ∷ m) h a = (inl (omega arith), All-above (suc e.0) k m (omega arith) a.1)

  pub get→Memᴰ : (k : ℕ) (m : Map V) (v : V) → get k m ≡ some v → Memᴰ v (values m)
  unfolding get
  get→Memᴰ k [] v h = cc
  get→Memᴰ k ((j, w) ∷ m) v h = elim (Bool-cases (j == k)) [
    | inl e ↦ Memᴰ.head (ground arith)
    | inr e ↦ Memᴰ.tail (get→Memᴰ k m v (ground arith))
  ]
