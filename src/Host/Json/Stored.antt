-- ===== src/Host/Json/Stored.antt =====
-- JSON that has a Lua value of its own, and the rows that its tables give.
use sni_lua.Common.Int.{ℤ, pos}
use sni_lua.Common.{
  ℕ, suc, ◌<◌, ◌≡◌, refl, ap, arith, Bool, true, false, ◌||◌, [], ◌∷◌, Option, some, ◌==◌, Str,
  str_lt, ◌∙◌, none,
}
use sni_lua.Host.Json.Order.{insert-above}
use sni_lua.Host.Json.{
  index, name, LuaTable, empty, entry, JsonValue, null, bool, num, text, array, object, int, float,
  JsonItems, end, item, JsonFields, done, field, is_index, Rows, find_row, has_rows, items_of,
  insert,
}

module _ {D : Type 0} where
  abbrev pub count : JsonItems D → ℕ
  count end = 0
  count (item j js) = suc (count js)

  abbrev pub has_index : ℕ → LuaTable D → Bool
  has_index n empty = false
  has_index n (entry k v t) = is_index n k || has_index n t

  -- what the manual of Lua says of the length of a table: it is a border
  pub record IsBorder (raw_len : LuaTable D → ℕ) : Type 0 where
    pub present : (t : LuaTable D) → 0 < raw_len t → has_index (raw_len t) t ≡ true
    pub ends : (t : LuaTable D) → has_index (suc (raw_len t)) t ≡ false

  -- the key is below all of the fields'
  abbrev pub Precedes : Str → JsonFields D → Type 0
  Precedes k done = Unit {0}
  Precedes k (field l v fs) = (str_lt k l ≡ true) × Precedes k fs

  -- JSON that has a Lua value of its own: no `null` and no empty array in it, integers that a double
  -- holds, finite floats that are not whole, and ascending keys
  module _ (as_int : D → Option ℤ) (is_finite : D → Bool) (of_int : ℤ → D) where
    unfoldable mutual
      pub IsStored : JsonValue D → Type 0
      IsStored null = ⊥
      IsStored (bool b) = Unit {0}
      IsStored (num (int i)) = as_int (of_int i) ≡ some i
      IsStored (num (float x)) = (as_int x ≡ none) × (is_finite x ≡ true)
      IsStored (text s) = Unit {0}
      IsStored (array end) = ⊥
      IsStored (array (item j js)) = IsStored j × AllStored js
      IsStored (object fs) = FieldsStored fs

      pub AllStored : JsonItems D → Type 0
      AllStored end = Unit {0}
      AllStored (item j js) = IsStored j × AllStored js

      pub FieldsStored : JsonFields D → Type 0
      FieldsStored done = Unit {0}
      FieldsStored (field k j fs) = IsStored j × Precedes k fs × FieldsStored fs

  abbrev pub numbered : ℕ → JsonItems D → Rows D
  numbered i end = []
  numbered i (item j js) = (index (pos i), some j) ∷ numbered (suc i) js

  abbrev pub named : JsonFields D → Rows D
  named done = []
  named (field k j fs) = (name k, some j) ∷ named fs

  -- The items stand at their indices.
  abbrev pub Finds : Rows D → ℕ → JsonItems D → Type 0
  Finds rs i end = Unit {0}
  Finds rs i (item j js) = (find_row i rs ≡ some (some j)) × Finds rs (suc i) js

  pub Finds-later :
      (n : ℕ) (v : Option (JsonValue D)) (rs : Rows D) (i : ℕ) (js : JsonItems D)
      → n < i
      → Finds rs i js
      → Finds ((index (pos n), v) ∷ rs) i js
  unfolding find_row is_index
  Finds-later n v rs i end l h = tt
  Finds-later n v rs i (item j js) l h =
      let no : (n == i) ≡ false = ground (arith, l) in
      (rw no h.0, Finds-later n v rs (suc i) js (omega (arith, l)) h.1)

  pub numbered-Finds : (i : ℕ) (js : JsonItems D) → Finds (numbered i js) i js
  unfolding find_row is_index
  numbered-Finds i end = tt
  numbered-Finds i (item j js) =
      let same : (i == i) ≡ true = ground arith in
      (
        rw same refl,
        Finds-later i (some j) (numbered (suc i) js) (suc i) js (omega arith)
            (numbered-Finds (suc i) js),
      )

  pub has_rows-Finds :
      (rs : Rows D) (i : ℕ) (js : JsonItems D) → Finds rs i js → has_rows (count js) i rs ≡ true
  unfolding has_rows
  has_rows-Finds rs i end h = refl
  has_rows-Finds rs i (item j js) h = rw (h.0, has_rows) (has_rows-Finds rs (suc i) js h.1)

  pub items_of-Finds :
      (rs : Rows D) (i : ℕ) (js : JsonItems D) → Finds rs i js → items_of (count js) i rs ≡ some js
  unfolding items_of
  items_of-Finds rs i end h = refl
  items_of-Finds rs i (item j js) h =
      rw (h.0, items_of) (rw (items_of-Finds rs (suc i) js h.1) refl)

  abbrev pub joined : JsonFields D → JsonFields D → JsonFields D
  joined done fs = fs
  joined (field k j acc) fs = field k j (joined acc fs)

  abbrev pub Follows : Str → JsonFields D → Type 0
  Follows l done = Unit {0}
  Follows l (field k v acc) = (str_lt k l ≡ true) × Follows l acc

  abbrev pub AllFollow : JsonFields D → JsonFields D → Type 0
  AllFollow done acc = Unit {0}
  AllFollow (field l v fs) acc = Follows l acc × AllFollow fs acc

  pub insert-Follows :
      (k : Str) (j : JsonValue D) (acc : JsonFields D)
      → Follows k acc
      → insert k j acc ≡ joined acc (field k j done)
  unfolding insert
  insert-Follows k j done h = refl
  insert-Follows k j (field l w acc) h =
      insert-above l k j w acc h.0 ∙ ap (λ fs. field l w fs) (insert-Follows k j acc h.1)

  pub Follows-joined :
      (l k : Str) (j : JsonValue D) (acc : JsonFields D)
      → Follows l acc
      → str_lt k l ≡ true
      → Follows l (joined acc (field k j done))
  Follows-joined l k j done h e = (e, tt)
  Follows-joined l k j (field m w acc) h e = (h.0, Follows-joined l k j acc h.1 e)

  pub AllFollow-joined :
      (fs : JsonFields D) (k : Str) (j : JsonValue D) (acc : JsonFields D)
      → AllFollow fs acc
      → Precedes k fs
      → AllFollow fs (joined acc (field k j done))
  AllFollow-joined done k j acc h e = tt
  AllFollow-joined (field l v fs) k j acc h e =
      (Follows-joined l k j acc h.0 e.0, AllFollow-joined fs k j acc h.1 e.1)

  pub joined-joined :
      (k : Str) (j : JsonValue D) (acc fs : JsonFields D)
      → joined (joined acc (field k j done)) fs ≡ joined acc (field k j fs)
  joined-joined k j done fs = refl
  joined-joined k j (field l w acc) fs = ap (λ r. field l w r) (joined-joined k j acc fs)
