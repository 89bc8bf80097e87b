-- ===== src/Host/Json/RoundTrip.antt =====
-- A document that a script stores is the one that it reads.
use sni_lua.Common.Int.{ℤ, pos}
use sni_lua.Common.{
  ℕ, suc, ◌+◌, ◌≡◌, refl, sym, ap, ap₂, ◌∙◌, arith, Bool, true, false, ◌&&◌, ◌||◌, ◌∷◌, Option,
  some, none, [], All, Permᴰ, str_lt, str_lt_irrefl, ltb, leb, ◌==◌, Str, Bool-cases, inl, inr,
}
use sni_lua.Host.Json.Order.{IsNamed, Differ, Apart, fields_of-perm}
use sni_lua.Host.Json.Stored.{
  Precedes, count, has_index, IsBorder, IsStored, AllStored, FieldsStored, numbered, named,
  numbered-Finds, has_rows-Finds, items_of-Finds, joined, AllFollow, insert-Follows,
  AllFollow-joined, joined-joined,
}
use sni_lua.Host.Json.{
  Key, index, name, LuaValue, nil, boolean, number, string, table, foreign, LuaTable, JsonValue,
  null, bool, num, text, array, object, int, float, JsonItems, end, item, JsonFields, done, field,
  is_index, Rows, fields_of, table_json, lua_to_json, rows, set_entry, json_to_lua, items_table,
  fields_table,
}

abbrev pub isnt_nil : {D : Type 0} → LuaValue D → Bool
isnt_nil nil = false
isnt_nil _ = true

module _ {D : Type 0} (as_int : D → Option ℤ) (is_finite : D → Bool) (of_int : ℤ → D)
    (int_text : ℤ → Str) (num_text : D → Str) (order : Rows D → Rows D)
    (raw_len : LuaTable D → ℕ) where
  abbrev to_json : LuaValue D → Option (JsonValue D)
  to_json = lua_to_json as_int is_finite int_text num_text order raw_len

  abbrev rows_of : LuaTable D → Rows D
  rows_of = rows as_int is_finite int_text num_text order raw_len

  pub json_to_lua-isnt_nil :
      (j : JsonValue D)
      → IsStored as_int is_finite of_int j
      → isnt_nil (json_to_lua of_int j) ≡ true
  unfolding json_to_lua IsStored
  json_to_lua-isnt_nil null h = absurd h
  json_to_lua-isnt_nil (bool b) h = refl
  json_to_lua-isnt_nil (num (int i)) h = refl
  json_to_lua-isnt_nil (num (float x)) h = refl
  json_to_lua-isnt_nil (text s) h = refl
  json_to_lua-isnt_nil (array js) h = refl
  json_to_lua-isnt_nil (object fs) h = refl

  rows-set_entry :
      (k : Key D) (v : LuaValue D) (t : LuaTable D)
      → isnt_nil v ≡ true
      → rows_of (set_entry k v t) ≡ (k, to_json v) ∷ rows_of t
  unfolding lua_to_json
  rows-set_entry k nil t h = ground (arith, h)
  rows-set_entry k (boolean b) t h = refl
  rows-set_entry k (number x) t h = refl
  rows-set_entry k (string s) t h = refl
  rows-set_entry k (table u) t h = refl
  rows-set_entry k foreign t h = refl

  has_index-set_entry :
      (n : ℕ) (k : Key D) (v : LuaValue D) (t : LuaTable D)
      → isnt_nil v ≡ true
      → has_index n (set_entry k v t) ≡ (is_index n k || has_index n t)
  has_index-set_entry n k nil t h = ground (arith, h)
  has_index-set_entry n k (boolean b) t h = refl
  has_index-set_entry n k (number x) t h = refl
  has_index-set_entry n k (string s) t h = refl
  has_index-set_entry n k (table u) t h = refl
  has_index-set_entry n k foreign t h = refl

  joined-done : (acc : JsonFields D) → joined acc done ≡ acc
  joined-done done = refl
  joined-done (field k j acc) = ap (λ r. field k j r) (joined-done acc)

  fields_of-named :
      (fs acc : JsonFields D)
      → FieldsStored as_int is_finite of_int fs
      → AllFollow fs acc
      → fields_of int_text num_text order (named fs) acc ≡ some (joined acc fs)
  unfolding fields_of IsStored
  fields_of-named done acc h n = ap some (sym (joined-done acc))
  fields_of-named (field k j fs) acc h n =
      ap (λ a. fields_of int_text num_text order (named fs) a) (insert-Follows k j acc n.0)
      ∙ fields_of-named fs (joined acc (field k j done)) h.2 (AllFollow-joined fs k j acc n.1 h.1)
      ∙ ap some (joined-joined k j acc fs)

  has_index-items :
      (n i : ℕ) (js : JsonItems D)
      → AllStored as_int is_finite of_int js
      → has_index n (items_table of_int i js) ≡ (leb i n && ltb n (i + count js))
  unfolding json_to_lua IsStored is_index
  has_index-items n i end h = ground arith
  has_index-items n i (item j js) h =
      has_index-set_entry n (index (pos i)) (json_to_lua of_int j) (items_table of_int (suc i) js)
        (json_to_lua-isnt_nil j h.0)
      ∙ ap (λ b. i == n || b) (has_index-items n (suc i) js h.1)
      ∙ ground arith

  has_index-fields :
      (n : ℕ) (fs : JsonFields D)
      → FieldsStored as_int is_finite of_int fs
      → has_index n (fields_table of_int fs) ≡ false
  unfolding json_to_lua IsStored is_index
  has_index-fields n done h = refl
  has_index-fields n (field k j fs) h =
      has_index-set_entry n (name k) (json_to_lua of_int j) (fields_table of_int fs)
        (json_to_lua-isnt_nil j h.0)
      ∙ has_index-fields n fs h.2

  -- `pairs` gives each entry once, in some order
  module _ (border : IsBorder raw_len) (permuted : (rs : Rows D) → Permᴰ rs (order rs)) where
    raw_len-items :
        (j : JsonValue D) (js : JsonItems D)
        → AllStored as_int is_finite of_int (item j js)
        → raw_len (items_table of_int 1 (item j js)) ≡ count (item j js)
    raw_len-items j js h =
        let t = items_table of_int 1 (item j js) in
        let m = raw_len t in
        let after = sym (has_index-items (suc m) 1 (item j js) h) ∙ border.ends t in
        elim (Bool-cases (ltb 0 m)) [
          | inl e ↦ ground (
            arith,
            after,
            sym (has_index-items m 1 (item j js) h) ∙ border.present t (ground (arith, e)),
          )
          | inr e ↦ ground (arith, after, e)
        ]

    raw_len-fields :
        (fs : JsonFields D)
        → FieldsStored as_int is_finite of_int fs
        → raw_len (fields_table of_int fs) ≡ 0
    raw_len-fields fs h =
        let t = fields_table of_int fs in
        elim (Bool-cases (ltb 0 (raw_len t))) [
          | inl e ↦ ground (
            arith,
            sym (has_index-fields (raw_len t) fs h) ∙ border.present t (ground (arith, e)),
          )
          | inr e ↦ ground (arith, e)
        ]

    table_json-numbered :
        (j : JsonValue D) (js : JsonItems D)
        → table_json int_text num_text order (count (item j js)) (numbered 1 (item j js))
          ≡ some (array (item j js))
    unfolding table_json
    table_json-numbered j js =
        let f = numbered-Finds 1 (item j js) in
        let positive : ltb 0 (count (item j js)) ≡ true = ground arith in
        rw
          (
            positive,
            has_rows-Finds (numbered 1 (item j js)) 1 (item j js) f,
            items_of-Finds (numbered 1 (item j js)) 1 (item j js) f,
          )
          refl

    AllFollow-done : (fs : JsonFields D) → AllFollow fs done
    AllFollow-done done = tt
    AllFollow-done (field k j fs) = (tt, AllFollow-done fs)

    named-IsNamed : (fs : JsonFields D) → All IsNamed (named fs)
    named-IsNamed done = tt
    named-IsNamed (field k j fs) = ((k, j, refl), named-IsNamed fs)

    -- the text of a string key
    name_of : Key D → Str
    name_of (name s) = s
    name_of _ = []

    Precedes-Differ :
        (k : Str) (j : JsonValue D) (fs : JsonFields D)
        → Precedes k fs
        → All (Differ (name k, some j)) (named fs)
    unfolding name_of
    Precedes-Differ k j done h = tt
    Precedes-Differ k j (field l i fs) h = (
      λ q. ground (arith, h.0, ap (λ s. str_lt k s) (sym (ap name_of q)), str_lt_irrefl k),
      Precedes-Differ k j fs h.1,
    )

    named-Apart : (fs : JsonFields D) → FieldsStored as_int is_finite of_int fs → Apart (named fs)
    unfolding IsStored
    named-Apart done h = tt
    named-Apart (field k j fs) h = (Precedes-Differ k j fs h.1, named-Apart fs h.2)

    table_json-named :
        (fs : JsonFields D)
        → FieldsStored as_int is_finite of_int fs
        → table_json int_text num_text order 0 (named fs) ≡ some (object fs)
    unfolding table_json
    table_json-named fs h =
        ap (λ o. elim o [ none ↦ none | some fs ↦ some (object fs) ])
          (sym (
              fields_of-perm int_text num_text order (permuted (named fs)) (named-IsNamed fs)
                (named-Apart fs h) done)
            ∙ fields_of-named fs done h (AllFollow-done fs))

    mutual
      unfolding lua_to_json json_to_lua IsStored

      pub to_json-stored :
          (j : JsonValue D)
          → IsStored as_int is_finite of_int j
          → to_json (json_to_lua of_int j) ≡ some j
      to_json-stored null h = absurd h
      to_json-stored (bool b) h = refl
      to_json-stored (num (int i)) h = rw h refl
      to_json-stored (num (float x)) h = rw (h.0, h.1) refl
      to_json-stored (text s) h = refl
      to_json-stored (array end) h = absurd h
      to_json-stored (array (item j js)) h =
          ap₂ (table_json int_text num_text order) (raw_len-items j js h)
            (rows-items 1 (item j js) h)
          ∙ table_json-numbered j js
      to_json-stored (object fs) h =
          ap₂ (table_json int_text num_text order) (raw_len-fields fs h) (rows-fields fs h)
          ∙ table_json-named fs h

      rows-items :
          (i : ℕ) (js : JsonItems D)
          → AllStored as_int is_finite of_int js
          → rows_of (items_table of_int i js) ≡ numbered i js
      rows-items i end h = refl
      rows-items i (item j js) h =
          rows-set_entry (index (pos i)) (json_to_lua of_int j) (items_table of_int (suc i) js)
            (json_to_lua-isnt_nil j h.0)
          ∙ ap₂ (λ v r. (index (pos i), v) ∷ r) (to_json-stored j h.0) (rows-items (suc i) js h.1)

      rows-fields :
          (fs : JsonFields D)
          → FieldsStored as_int is_finite of_int fs
          → rows_of (fields_table of_int fs) ≡ named fs
      rows-fields done h = refl
      rows-fields (field k j fs) h =
          rows-set_entry (name k) (json_to_lua of_int j) (fields_table of_int fs)
            (json_to_lua-isnt_nil j h.0)
          ∙ ap₂ (λ v r. (name k, v) ∷ r) (to_json-stored j h.0) (rows-fields fs h.2)
