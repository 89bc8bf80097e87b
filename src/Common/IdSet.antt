-- ===== src/Common/IdSet.antt =====
-- `HashSet` of ids: a list without repetition, read by its membership test.
use sni_lua.Common.Tests.{if◌then◌else◌, ◌==◌, eq_of_==, Bool-cases}
use Prim.Native.Nat.{ℕ}
use mathlib.Core.Bool.{Bool, true, false, ◌||◌}
use mathlib.Core.List.{List, [], ◌∷◌}
use mathlib.Core.Logic.{inl, inr}
use mathlib.Core.Path.{◌≡◌}
use native.Mathlib.Omega.{arith}

abbrev pub IdSet : Type 0
IdSet = List ℕ

unfoldable pub contains : ℕ → IdSet → Bool
contains id [] = false
contains id (j ∷ s) = j == id || contains id s

-- `insert`: the set, and whether the id is new
unfoldable pub insert : ℕ → IdSet → IdSet
unfolding contains
insert id s = if contains id s then s else id ∷ s

pub contains-insert : (id j : ℕ) (s : IdSet) → contains j (insert id s) ≡ (id == j || contains j s)
unfolding insert
contains-insert id j s = elim (Bool-cases (contains id s)) [
  | inl e ↦ rw e (ground (arith, contains_same id j s e))
  | inr e ↦ rw e
]
  where
    contains_same :
        (id j : ℕ) (s : IdSet) → contains id s ≡ true → contains j s ≡ (id == j || contains j s)
    contains_same id j s e = ground (arith, eq_of_== id j)
