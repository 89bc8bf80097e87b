-- ===== src/Tests/Saves.antt =====
-- The store table at a concrete document.
use sni_lua.Common.Int.{ℤ, pos, negsuc}
use sni_lua.Common.{
  ℕ, suc, ◌<◌, ◌≡◌, refl, arith, Bool, true, false, ◌||◌, [], ◌∷◌, some, none, max, subst, Str, str,
  str_lt, Option, Permᴰ, ltb, Bool-cases, inl, inr,
}
use sni_lua.Host.Json.Stored.{IsBorder, has_index, IsStored}
use sni_lua.Host.Json.{
  Key, index, real, name, unnamed, LuaTable, empty, entry, JsonValue, num, int, text, array, item,
  end, json_to_lua, is_index, object, field, done, Rows,
}
use sni_lua.Host.Saves.{store_get, store_set, store_load, store_save, store_get-store_set}
use sni_lua.Runtime.Store.{Store}
use sni_lua.Runtime.Store as Store

-- the highest index of a table is a border
abbrev index_of : Key ℕ → ℕ
index_of (index (pos n)) = n
index_of _ = 0

abbrev highest : LuaTable ℕ → ℕ
highest empty = 0
highest (entry k v t) = max (index_of k) (highest t)

is_index-Above : (n : ℕ) (k : Key ℕ) → index_of k < n → is_index n k ≡ false
unfolding is_index
is_index-Above n (index (pos m)) h = ground (arith, h)
is_index-Above n (index (negsuc m)) h = refl
is_index-Above n (real x) h = refl
is_index-Above n (name s) h = refl
is_index-Above n unnamed h = refl

is_index_self : (k : Key ℕ) → 0 < index_of k → is_index (index_of k) k ≡ true
unfolding is_index
is_index_self (index (pos m)) h = ground arith
is_index_self (index (negsuc m)) h = absurd (omega (arith, h))
is_index_self (real x) h = absurd (omega (arith, h))
is_index_self (name s) h = absurd (omega (arith, h))
is_index_self unnamed h = absurd (omega (arith, h))

has_index-Above : (n : ℕ) (t : LuaTable ℕ) → highest t < n → has_index n t ≡ false
has_index-Above n empty h = refl
has_index-Above n (entry k v t) h =
    rw (is_index-Above n k (omega (arith, h))) (has_index-Above n t (omega (arith, h)))

has_index-highest : (t : LuaTable ℕ) → 0 < highest t → has_index (highest t) t ≡ true
has_index-highest empty h = absurd (omega (arith, h))
has_index-highest (entry k v t) h = elim (Bool-cases (ltb (index_of k) (highest t))) [
  | inl e ↦
      let m : highest t ≡ max (index_of k) (highest t) = ground (arith, e) in
      subst (λ n. (is_index n k || has_index n t) ≡ true) m
        (ground (arith, has_index-highest t (ground (arith, e))))
  | inr e ↦
      let m : index_of k ≡ max (index_of k) (highest t) = ground (arith, e) in
      subst (λ n. (is_index n k || has_index n t) ≡ true) m
        (ground (arith, is_index_self k (ground (arith, e, h))))
]

highest-IsBorder : IsBorder highest
highest-IsBorder = record {
  present = has_index-highest;
  ends = λ t. has_index-Above (suc (highest t)) t (omega arith);
}

-- a double here is a natural number, and each of them is whole
abbrev whole_of : ℕ → Option ℤ
whole_of n = some (pos n)

abbrev rounded : ℤ → ℕ
rounded (pos n) = n
rounded (negsuc n) = 0

-- `pairs` gives the second entry first
abbrev swapped : Rows ℕ → Rows ℕ
swapped (a ∷ b ∷ rs) = b ∷ a ∷ rs
swapped rs = rs

swapped-perm : (rs : Rows ℕ) → Permᴰ rs (swapped rs)
swapped-perm [] = Permᴰ.nil
swapped-perm (a ∷ []) = Permᴰ.cons refl Permᴰ.nil
swapped-perm (a ∷ b ∷ rs) = Permᴰ.swap refl refl

abbrev coins : JsonValue ℕ
coins = object (
    field (str "count") (num (int (pos 3)))
      (field (str "kinds") (array (item (text (str "red")) end)) done))

abbrev store : Store (JsonValue ℕ)
store = record { doc = (str "hp", num (int (pos 9))) ∷ []; path = none; dirty = false }

store_get-store_set_example :
    let finite : ℕ → Bool = λ n. true in
    let digits : ℤ → Str = λ i. [] in
    let shown : ℕ → Str = λ n. [] in
    (store_set whole_of finite digits shown swapped highest
        (str "coins")
        (json_to_lua rounded coins)
        store
      ≡ some (Store.set (str "coins") coins store))
    × (store_get rounded (str "coins") (Store.set (str "coins") coins store)
        ≡ json_to_lua rounded coins)
    × (store_save whole_of finite digits shown swapped highest (store_load rounded store) store
        ≡ some (record store { dirty = true }))
unfolding IsStored str_lt
store_get-store_set_example =
    store_get-store_set whole_of (λ n. true) (λ i. []) (λ n. []) swapped highest rounded
      highest-IsBorder swapped-perm (str "coins") coins store (refl, (refl, tt), ((tt, tt), tt, tt))
      (refl, tt, tt)
