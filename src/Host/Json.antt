-- ===== src/Host/Json.antt =====
-- `lua_to_json` and `json_to_lua`, and the `store` table that they serve. `D` stands for `f64`, the one
-- kind of number that LuaJIT has. A table is the sequence of its entries, and `pairs` gives them in an
-- order of its own; an object is a `BTreeMap`, whose keys ascend.
pub mod Stored
pub mod Order
pub mod RoundTrip
use sni_lua.Common.Int.{ℤ, pos, negsuc}
use sni_lua.Common.{
  ℕ, zero, suc, Bool, true, false, ◌&&◌, List, [], ◌∷◌, Option, none, some, if◌then◌else◌, ltb,
  ◌==◌, Str, str_eq, str_lt,
}
use sni_lua.Runtime.Store.{Store, Doc}
use sni_lua.Runtime.Store as Store

-- the keys of a table; an integral number is an integer there
pub data Key (D : Type 0) : Type 0 where
  index : ℤ → Key D
  real : D → Key D
  name : Str → Key D
  unnamed : Key D

mutual
  pub data LuaValue (D : Type 0) : Type 0 where
    nil : LuaValue D
    boolean : Bool → LuaValue D
    number : D → LuaValue D
    string : Str → LuaValue D
    table : LuaTable D → LuaValue D
    -- a function and its like
    foreign : LuaValue D

  pub data LuaTable (D : Type 0) : Type 0 where
    empty : LuaTable D
    entry : Key D → LuaValue D → LuaTable D → LuaTable D

-- `serde_json::Number`: an integer of 64 bits, signed or not, or a float
pub data Number (D : Type 0) : Type 0 where
  int : ℤ → Number D
  float : D → Number D

mutual
  pub data JsonValue (D : Type 0) : Type 0 where
    null : JsonValue D
    bool : Bool → JsonValue D
    num : Number D → JsonValue D
    text : Str → JsonValue D
    array : JsonItems D → JsonValue D
    object : JsonFields D → JsonValue D

  pub data JsonItems (D : Type 0) : Type 0 where
    end : JsonItems D
    item : JsonValue D → JsonItems D → JsonItems D

  pub data JsonFields (D : Type 0) : Type 0 where
    done : JsonFields D
    field : Str → JsonValue D → JsonFields D → JsonFields D

-- a table's entries, each with the conversion of its value; `none` is an error
abbrev pub Rows : Type 0 → Type 0
Rows D = List (Key D × Option (JsonValue D))

module _ {D : Type 0} where
  unfoldable pub is_index : ℕ → Key D → Bool
  is_index n (index (pos m)) = m == n
  is_index n _ = false

  -- `raw_get`
  unfoldable pub find_row : ℕ → Rows D → Option (Option (JsonValue D))
  unfolding is_index
  find_row n [] = none
  find_row n ((k, v) ∷ rs) = let rest = find_row n rs in if is_index n k then some v else rest

  -- whether `count` indices from one on are there
  unfoldable pub has_rows : (count from : ℕ) → Rows D → Bool
  unfolding find_row
  has_rows zero from rs = true
  has_rows (suc count) from rs = elim (find_row from rs) [
    | none ↦ false
    | some v ↦ has_rows count (suc from) rs
  ]

  -- the values at `count` indices from one on; no value is `nil`, which converts to `null`
  unfoldable pub items_of : (count from : ℕ) → Rows D → Option (JsonItems D)
  unfolding find_row
  items_of zero from rs = some end
  items_of (suc count) from rs = elim (find_row from rs) [
    | none ↦ elim (items_of count (suc from) rs) [ none ↦ none | some js ↦ some (item null js) ]
    | some none ↦ none
    | some (some j) ↦ elim (items_of count (suc from) rs) [
      | none ↦ none
      | some js ↦ some (item j js)
    ]
  ]

  unfoldable pub insert : Str → JsonValue D → JsonFields D → JsonFields D
  unfolding str_eq str_lt
  insert k v done = field k v done
  insert k v (field l w fs) =
      let rest = insert k v fs in
      if str_lt k l
      then field k v (field l w fs)
      else if str_eq l k
      then field l v fs
      else field l w rest

-- `order` is the order in which `pairs` gives a table's entries
module _ {D : Type 0} (int_text : ℤ → Str) (num_text : D → Str) (order : Rows D → Rows D) where
  abbrev pub key_text : Key D → Option Str
  key_text (name s) = some s
  key_text (index i) = some (int_text i)
  key_text (real x) = some (num_text x)
  key_text unnamed = none

  -- the rows inserted one by one; a row whose key has no text is skipped
  unfoldable pub fields_of : Rows D → JsonFields D → Option (JsonFields D)
  unfolding insert
  fields_of [] fs = some fs
  fields_of ((k, v) ∷ rs) fs = elim (key_text k) [
    | none ↦ fields_of rs fs
    | some s ↦ elim v [ none ↦ none | some j ↦ fields_of rs (insert s j fs) ]
  ]

  unfoldable pub table_json : ℕ → Rows D → Option (JsonValue D)
  unfolding has_rows items_of fields_of
  table_json len rs =
      if ltb 0 len && has_rows len 1 rs
      then elim (items_of len 1 rs) [ none ↦ none | some js ↦ some (array js) ]
      else elim (fields_of (order rs) done) [ none ↦ none | some fs ↦ some (object fs) ]

-- `as_int` is how mlua reads a number: one that is whole, and an i64, is an integer.
module _ {D : Type 0} (as_int : D → Option ℤ) (is_finite : D → Bool) (int_text : ℤ → Str)
    (num_text : D → Str) (order : Rows D → Rows D) (raw_len : LuaTable D → ℕ) where
  unfoldable mutual
    unfolding table_json

    pub lua_to_json : LuaValue D → Option (JsonValue D)
    lua_to_json nil = some null
    lua_to_json (boolean b) = some (bool b)
    lua_to_json (number x) = some (elim (as_int x) [
      | some i ↦ num (int i)
      | none ↦ if is_finite x then num (float x) else null
    ])
    lua_to_json (string s) = some (text s)
    lua_to_json (table t) = table_json int_text num_text order (raw_len t) (rows t)
    lua_to_json foreign = none

    pub rows : LuaTable D → Rows D
    rows empty = []
    rows (entry k v t) = (k, lua_to_json v) ∷ rows t

-- `t.set` of a key that is not there: `nil` sets nothing
abbrev pub set_entry : {D : Type 0} → Key D → LuaValue D → LuaTable D → LuaTable D
set_entry k nil t = t
set_entry k v t = entry k v t

-- An integer, in 64 bits or not, is pushed to the machine as a double: `of_int` rounds it.
module _ {D : Type 0} (of_int : ℤ → D) where
  unfoldable mutual
    pub json_to_lua : JsonValue D → LuaValue D
    json_to_lua null = nil
    json_to_lua (bool b) = boolean b
    json_to_lua (num (int i)) = number (of_int i)
    json_to_lua (num (float x)) = number x
    json_to_lua (text s) = string s
    json_to_lua (array js) = table (items_table 1 js)
    json_to_lua (object fs) = table (fields_table fs)

    pub items_table : ℕ → JsonItems D → LuaTable D
    items_table i end = empty
    items_table i (item j js) = set_entry (index (pos i)) (json_to_lua j) (items_table (suc i) js)

    pub fields_table : JsonFields D → LuaTable D
    fields_table done = empty
    fields_table (field k j fs) = set_entry (name k) (json_to_lua j) (fields_table fs)
