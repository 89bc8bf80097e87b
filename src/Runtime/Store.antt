-- ===== src/Runtime/Store.antt =====
-- `Store`: the script's document, in memory and in its file. The values are those of `serde_json`,
-- its parser and its printer are arguments, and so is the file system's answer.
pub mod Saved
use sni_lua.Common.{
  ℕ, Bool, true, false, List, [], ◌∷◌, Option, none, some, if◌then◌else◌, Str, str_eq, str_lt,
}

-- `serde_json::Map`, a `BTreeMap`: a key stands once, and the keys ascend
abbrev pub Doc : Type 0 → Type 0
Doc J = List (Str × J)

module _ {J : Type 0} where
  unfoldable pub lookup : Str → Doc J → Option J
  unfolding str_eq
  lookup key [] = none
  lookup key ((k, v) ∷ doc) = let rest = lookup key doc in if str_eq k key then some v else rest

  unfoldable pub put : Str → J → Doc J → Doc J
  unfolding str_eq str_lt
  put key value [] = (key, value) ∷ []
  put key value ((k, v) ∷ doc) =
      let rest = put key value doc in
      if str_lt key k
      then (key, value) ∷ (k, v) ∷ doc
      else if str_eq k key
      then (k, value) ∷ doc
      else (k, v) ∷ rest

  unfoldable pub delete : Str → Doc J → Doc J
  unfolding str_eq
  delete key [] = []
  delete key ((k, v) ∷ doc) =
      let rest = delete key doc in if str_eq k key then rest else (k, v) ∷ rest

pub record Store (J : Type 0) : Type 0 where
  -- `data` in the source
  pub doc : Doc J
  pub path : Option Str
  pub dirty : Bool

-- what `serde_json::from_str` makes of a text
pub data Parsed (J : Type 0) : Type 0 where
  object : Doc J → Parsed J
  other invalid : Parsed J

module _ {J : Type 0} where
  unfoldable pub new : Store J
  new = record { doc = []; path = none; dirty = false }

  -- the document of a file: `none` is a file that cannot be read
  unfoldable pub loaded : (Str → Parsed J) → Option Str → Doc J
  loaded parse none = []
  loaded parse (some text) = elim (parse text) [ object m ↦ m | other ↦ [] | invalid ↦ [] ]

  unfoldable pub bind : (Str → Parsed J) → Option Str → Str → Store J → Store J
  unfolding loaded
  bind parse content path s = record { doc = loaded parse content; path = some path; dirty = false }

  unfoldable pub unbind : Store J → Store J
  unbind s = record s { path = none }

  unfoldable pub get : Store J → Str → Option J
  unfolding lookup
  get s key = lookup key s.doc

  unfoldable pub set : Str → J → Store J → Store J
  unfolding put
  set key value s = record s { doc = put key value s.doc; dirty = true }

  unfoldable pub remove : Str → Store J → Store J
  unfolding lookup delete
  remove key s = elim (lookup key s.doc) [
    | none ↦ s
    | some _ ↦ record s { doc = delete key s.doc; dirty = true }
  ]

  unfoldable pub replace : Doc J → Store J → Store J
  replace obj s = record s { doc = obj; dirty = true }

  unfoldable pub snapshot : Store J → Doc J
  snapshot s = s.doc

  -- The store, and what `atomic_write` is asked to write where. A document that cannot be printed
  -- is not written.
  unfoldable pub flush_if_dirty : (Doc J → Option Str) → Store J → Store J × Option (Str × Str)
  flush_if_dirty print s =
      if s.dirty
      then elim s.path [
        | none ↦ (record s { dirty = false }, none)
        | some path ↦ (
          record s { dirty = false },
          elim (print s.doc) [ none ↦ none | some text ↦ some (path, text) ],
        )
      ]
      else (s, none)
