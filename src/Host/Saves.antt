-- ===== src/Host/Saves.antt =====
-- The `store` table, and the JSON helpers of `http`. `none` as a result is an error.
use sni_lua.Common.Int.{ℤ}
use sni_lua.Common.{
  ℕ, ◌≡◌, refl, ap, ◌∙◌, arith, Bool, true, [], ◌∷◌, Option, none, some, Permᴰ, if◌then◌else◌, Str,
  str_eq_refl,
}
use sni_lua.Host.Json.RoundTrip.{isnt_nil, json_to_lua-isnt_nil, to_json-stored}
use sni_lua.Host.Json.Stored.{IsBorder, IsStored, FieldsStored}
use sni_lua.Host.Json.{
  LuaValue, nil, boolean, number, string, table, foreign, LuaTable, JsonValue, object, JsonFields,
  done, field, lua_to_json, json_to_lua, Rows,
}
use sni_lua.Host.Panel.Keys.{lookup-put}
use sni_lua.Runtime.Store.{Store, Doc, lookup, put}
use sni_lua.Runtime.Store as Store

module _ {D : Type 0} where
  -- `Value::Object` of a document, and back
  abbrev pub of_doc : Doc (JsonValue D) → JsonFields D
  of_doc [] = done
  of_doc ((k, j) ∷ m) = field k j (of_doc m)

  abbrev pub to_doc : JsonFields D → Doc (JsonValue D)
  to_doc done = []
  to_doc (field k j fs) = (k, j) ∷ to_doc fs

  unfoldable pub store_get : (ℤ → D) → Str → Store (JsonValue D) → LuaValue D
  unfolding json_to_lua Store.get
  store_get of_int key s = elim (Store.get s key) [ none ↦ nil | some j ↦ json_to_lua of_int j ]

  unfoldable pub store_delete : Str → Store (JsonValue D) → Store (JsonValue D)
  unfolding Store.remove
  store_delete key s = Store.remove key s

  unfoldable pub store_load : (ℤ → D) → Store (JsonValue D) → LuaValue D
  unfolding json_to_lua Store.snapshot
  store_load of_int s = json_to_lua of_int (object (of_doc (Store.snapshot s)))

  -- the text of a response, parsed; `parse` is `serde_json::from_str`
  unfoldable pub json_decode : (ℤ → D) → (Str → Option (JsonValue D)) → Str → Option (LuaValue D)
  unfolding json_to_lua
  json_decode of_int parse s = elim (parse s) [ none ↦ none | some j ↦ some (json_to_lua of_int j) ]

  -- only an object is a document
  unfoldable pub replaced_by :
      Option (JsonValue D) → Store (JsonValue D) → Option (Store (JsonValue D))
  unfolding Store.replace
  replaced_by (some (object fs)) s = some (Store.replace (to_doc fs) s)
  replaced_by _ s = none

module _ {D : Type 0} (as_int : D → Option ℤ) (is_finite : D → Bool) (int_text : ℤ → Str)
    (num_text : D → Str) (order : Rows D → Rows D) (raw_len : LuaTable D → ℕ) where
  unfoldable pub stored_as : Str → LuaValue D → Store (JsonValue D) → Option (Store (JsonValue D))
  unfolding lua_to_json Store.set
  stored_as key v s = elim (lua_to_json as_int is_finite int_text num_text order raw_len v) [
    | none ↦ none
    | some j ↦ some (Store.set key j s)
  ]

  -- `nil` removes the key
  unfoldable pub store_set : Str → LuaValue D → Store (JsonValue D) → Option (Store (JsonValue D))
  unfolding stored_as Store.remove
  store_set key nil s = some (Store.remove key s)
  store_set key v s = stored_as key v s

  unfoldable pub store_save : LuaValue D → Store (JsonValue D) → Option (Store (JsonValue D))
  unfolding lua_to_json replaced_by
  store_save v s = replaced_by (lua_to_json as_int is_finite int_text num_text order raw_len v) s

  -- `print` is `serde_json::to_string`
  unfoldable pub json_encode : (JsonValue D → Option Str) → LuaValue D → Option Str
  unfolding lua_to_json
  json_encode print v = elim (lua_to_json as_int is_finite int_text num_text order raw_len v) [
    | none ↦ none
    | some j ↦ elim (print j) [ none ↦ some (b'n' ∷ b'u' ∷ b'l' ∷ b'l' ∷ []) | some s ↦ some s ]
  ]

  store_set-stored_as :
      (key : Str) (v : LuaValue D) (s : Store (JsonValue D))
      → isnt_nil v ≡ true
      → store_set key v s ≡ stored_as key v s
  unfolding store_set
  store_set-stored_as key nil s h = ground (arith, h)
  store_set-stored_as key (boolean b) s h = refl
  store_set-stored_as key (number x) s h = refl
  store_set-stored_as key (string t) s h = refl
  store_set-stored_as key (table t) s h = refl
  store_set-stored_as key foreign s h = refl

  lookup-put_same :
      (key : Str) (j : JsonValue D) (m : Doc (JsonValue D)) → lookup key (put key j m) ≡ some j
  lookup-put_same key j m =
      lookup-put key key j m ∙ ap (λ b. if b then some j else lookup key m) (str_eq_refl key)

  to_doc-of_doc : (m : Doc (JsonValue D)) → to_doc (of_doc m) ≡ m
  to_doc-of_doc [] = refl
  to_doc-of_doc ((k, j) ∷ m) = ap (λ r. (k, j) ∷ r) (to_doc-of_doc m)

  module _ (of_int : ℤ → D) (border : IsBorder raw_len)
      (permuted : (rs : Rows D) → Permᴰ rs (order rs)) where
    -- The Lua value of a JSON value without `null`, without an empty array, whose integers a double
    -- holds, whose floats are finite and not whole, and whose objects have ascending keys, is stored under a key as that JSON value, and what
    -- the script reads there is the Lua value again. A script that loads its whole document, made of such
    -- values, and saves it leaves the document as it is, in whatever order `pairs` gives the entries of
    -- its tables. What is asked of Lua is that a table's length is a border, and that `pairs` gives each
    -- entry once.
    pub store_get-store_set :
        (key : Str) (j : JsonValue D) (s : Store (JsonValue D))
        → IsStored as_int is_finite of_int j
        → FieldsStored as_int is_finite of_int (of_doc s.doc)
        → (store_set key (json_to_lua of_int j) s ≡ some (Store.set key j s))
          × (store_get of_int key (Store.set key j s) ≡ json_to_lua of_int j)
          × (store_save (store_load of_int s) s ≡ some (record s { dirty = true }))
    unfolding stored_as store_get store_save store_load Store.get Store.set Store.snapshot
        Store.replace replaced_by IsStored
    store_get-store_set key j s h all = (
      store_set-stored_as key (json_to_lua of_int j) s
            (json_to_lua-isnt_nil as_int is_finite of_int int_text num_text order raw_len j h)
          ∙ ap (λ o. elim o [ none ↦ none | some j ↦ some (Store.set key j s) ])
              (to_json-stored as_int is_finite of_int int_text num_text order raw_len border
                permuted j h),
      ap (λ o. elim o [ none ↦ nil | some j ↦ json_to_lua of_int j ]) (lookup-put_same key j s.doc),
      ap (λ o. replaced_by o s)
            (to_json-stored as_int is_finite of_int int_text num_text order raw_len border permuted
              (object (of_doc s.doc)) all)
          ∙ ap (λ m. some (record s { doc = m; dirty = true })) (to_doc-of_doc s.doc),
    )
