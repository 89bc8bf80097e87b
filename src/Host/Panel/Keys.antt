-- ===== src/Host/Panel/Keys.antt =====
-- What the store holds of a panel's controls after `persist_controls`.
use sni_lua.Common.Float.{Float}
use sni_lua.Common.{
  ◌≡◌, refl, ◌∙◌, ap, false, List, [], ◌∷◌, Option, none, some, Str, str_eq, str_eq_refl, str_eq→eq,
  All, All-map_of, arith, if◌then◌else◌,
}
use sni_lua.Controls.{Control, Controls}
use sni_lua.Host.Panel.{entry, mirror, persist_controls, seed, store_key, and_then}
use sni_lua.Host.Values.{Json, Reads}
use sni_lua.Runtime.Store.{Store, Doc, lookup, put}
use sni_lua.Runtime.Store as Store

pub lookup-put :
    {J : Type 0} (k j : Str) (v : J) (m : Doc J)
    → lookup j (put k v m) ≡ (if str_eq k j then some v else lookup j m)
unfolding lookup put
lookup-put k j v [] = refl
lookup-put k j v ((i, w) ∷ m) = ground (
  arith,
  lookup-put k j v m,
  str_eq→eq i k,
  str_eq→eq k j,
  str_eq→eq i j,
  str_eq_refl k,
  str_eq_refl j,
)

-- what is said of a control's entry, if there is one
abbrev pub OnEntry : {J : Type 0} → (Str → J → Type 0) → Option (Str × J) → Type 0
OnEntry P none = Unit {0}
OnEntry P (some (k, v)) = P k v

module _ (fl : Float) (js : Json fl.F) where
  -- the document has the control's value under its id
  abbrev pub Held : Doc js.J → Control fl.F → Type 0
  Held m c = OnEntry (λ k v. lookup k m ≡ some v) (entry fl js c)

  -- the control is not recorded under the key
  abbrev pub Avoids : Str → Control fl.F → Type 0
  Avoids key c = OnEntry (λ k v. str_eq k key ≡ false) (entry fl js c)

  -- no two controls are recorded under one id
  abbrev pub DistinctIds : List (Control fl.F) → Type 0
  DistinctIds [] = Unit {0}
  DistinctIds (c ∷ cs) = OnEntry (λ k v. All (Avoids k) cs) (entry fl js c) × DistinctIds cs

  -- one control's entry, put into the document
  abbrev recorded : Option (Str × js.J) → Doc js.J → Doc js.J
  recorded o m = elim o [ none ↦ m | some (k, v) ↦ put k v m ]

  lookup-recorded :
      (o : Option (Str × js.J)) (key : Str) (m : Doc js.J)
      → OnEntry (λ k v. str_eq k key ≡ false) o
      → lookup key (recorded o m) ≡ lookup key m
  lookup-recorded none key m h = refl
  lookup-recorded (some (k, v)) key m h = lookup-put k key v m ∙ rw h refl

  lookup-mirror :
      (key : Str) (cs : List (Control fl.F)) (m : Doc js.J)
      → All (Avoids key) cs
      → lookup key (mirror fl js cs m) ≡ lookup key m
  unfolding mirror
  lookup-mirror key [] m h = refl
  lookup-mirror key (c ∷ cs) m h =
      lookup-mirror key cs (recorded (entry fl js c) m) h.1
      ∙ lookup-recorded (entry fl js c) key m h.0

  recorded-Held :
      (o : Option (Str × js.J)) (cs : List (Control fl.F)) (m : Doc js.J)
      → OnEntry (λ k v. All (Avoids k) cs) o
      → OnEntry (λ k v. lookup k (mirror fl js cs (recorded o m)) ≡ some v) o
  recorded-Held none cs m h = tt
  recorded-Held (some (k, v)) cs m h =
      lookup-mirror k cs (put k v m) h ∙ lookup-put k k v m ∙ rw (str_eq_refl k) refl

  mirror-Held :
      (cs : List (Control fl.F)) (m : Doc js.J) → DistinctIds cs → All (Held (mirror fl js cs m)) cs
  unfolding mirror
  mirror-Held [] m h = tt
  mirror-Held (c ∷ cs) m h =
      (recorded-Held (entry fl js c) cs m h.0, mirror-Held cs (recorded (entry fl js c) m) h.1)

  -- the store gives the control's value back as its seed
  abbrev pub Seeded : Store js.J → Control fl.F → Type 0
  Seeded s c = OnEntry (λ k v. seed fl js s k ≡ some v) (entry fl js c)

  seed-set :
      {IsFinite : fl.F → Type 0} (reads : Reads js IsFinite) (s : Store js.J) (m : Doc js.J)
      (k : Str)
      → seed fl js (Store.set store_key (js.of_map m) s) k ≡ lookup k m
  unfolding seed Store.set Store.get
  seed-set reads s m k =
      rw (lookup-put store_key store_key (js.of_map m) s.doc) (rw (reads.maps m) refl)

  seeded_of :
      {IsFinite : fl.F → Type 0} (reads : Reads js IsFinite) (s : Store js.J) (cs : Controls fl.F)
      (o : Option (Str × js.J)) (m : Doc js.J)
      → mirror fl js cs.items [] ≡ m
      → OnEntry (λ k v. lookup k m ≡ some v) o
      → OnEntry (λ k v. seed fl js (persist_controls fl js cs s) k ≡ some v) o
  unfolding persist_controls lookup
  seeded_of reads s cs none m e h = tt
  seeded_of reads s cs (some (k, v)) [] e h = cc
  seeded_of reads s cs (some (k, v)) (x ∷ m) e h =
      rw (e, persist_controls) (seed-set reads s (x ∷ m) k ∙ h)

  -- Each control of a panel without a repeated id is seeded with the value that was persisted.
  pub persist_controls-Seeded :
      {IsFinite : fl.F → Type 0} (reads : Reads js IsFinite) (s : Store js.J) (cs : Controls fl.F)
      → DistinctIds cs.items
      → All (Seeded (persist_controls fl js cs s)) cs.items
  persist_controls-Seeded reads s cs h =
      All-map_of _ _ (λ c. seeded_of reads s cs (entry fl js c) (mirror fl js cs.items []) refl)
        cs.items (mirror-Held cs.items [] h)

  -- a seed is read from the document alone
  pub seed-doc : (s s' : Store js.J) (k : Str) → s'.doc ≡ s.doc → seed fl js s' k ≡ seed fl js s k
  unfolding seed Store.get
  seed-doc s s' k e =
      ap (λ m. and_then (lookup store_key m) (λ j. and_then (js.as_map j) (λ m. lookup k m))) e

  pub Seeded-doc :
      (s s' : Store js.J) (c : Control fl.F) → s'.doc ≡ s.doc → Seeded s c → Seeded s' c
  Seeded-doc s s' c e h = OnEntry-map (entry fl js c) h
    where
      OnEntry-map :
          (o : Option (Str × js.J))
          → OnEntry (λ k v. seed fl js s k ≡ some v) o
          → OnEntry (λ k v. seed fl js s' k ≡ some v) o
      OnEntry-map none h = tt
      OnEntry-map (some (k, v)) h = seed-doc s s' k e ∙ h
