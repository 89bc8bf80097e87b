-- ===== src/Tests/Toys.antt =====
-- A small JSON, a Lua machine of one script, and the orders of the whole numbers, for the tests.
use sni_lua.Common.Float.{IsOrdered}
use sni_lua.Common.{
  ℕ, ◌≡◌, refl, arith, Bool, [], ◌∷◌, Option, none, some, if◌then◌else◌, Str, str, str_eq,
}
use sni_lua.Host.Script.{World, Lua}
use sni_lua.Host.Values.{Json, Reads, Numbers, number}
use sni_lua.Runtime.Store.{Doc}
use sni_lua.Runtime.Store as Store
use sni_lua.Tests.Data.{whole}

pub data Tree : Type 0 where
  bit : Bool → Tree
  count : ℕ → Tree
  word : Str → Tree
  leaf : Tree
  entry : Str → Tree → Tree → Tree

pub to_tree : Doc Tree → Tree
to_tree [] = leaf
to_tree ((k, v) ∷ m) = entry k v (to_tree m)

pub to_doc : Tree → Option (Doc Tree)
to_doc leaf = some []
to_doc (entry k v rest) = elim (to_doc rest) [ none ↦ none | some m ↦ some ((k, v) ∷ m) ]
to_doc _ = none

abbrev pub trees : Json ℕ
trees = record {
  J = Tree;
  of_bool = bit;
  of_f64 = count;
  of_str = word;
  of_nat = count;
  of_map = to_tree;
  as_bool = λ j. elim j [ bit b ↦ some b | _ ↦ none ];
  as_f64 = λ j. elim j [ count n ↦ some n | _ ↦ none ];
  as_str = λ j. elim j [ word s ↦ some s | _ ↦ none ];
  as_u64 = λ j. elim j [ count n ↦ some n | _ ↦ none ];
  as_map = to_doc;
}

pub to_doc-to_tree : (m : Doc Tree) → to_doc (to_tree m) ≡ some m
unfolding to_doc to_tree
to_doc-to_tree [] = refl
to_doc-to_tree ((k, v) ∷ m) = rw (to_doc-to_tree m) refl

abbrev pub trees-Reads : Reads trees (λ n. Unit {0})
trees-Reads = record {
  bools = λ b. refl;
  floats = λ n h. refl;
  strs = λ s. refl;
  nats = λ n. refl;
  maps = to_doc-to_tree;
}

abbrev pub whole-IsOrdered : IsOrdered whole
whole-IsOrdered = record {
  irreflexive = λ x. ground arith;
  asymmetric = λ x y e. ground (arith, e);
  comparable = λ x y e f. ground arith;
  numbers = λ x y e. (ground arith, ground arith);
  equal = λ x y e. (ground (arith, e), ground (arith, e));
}

abbrev pub whole_values : Numbers ℕ
whole_values = record {
  as_f64 = λ v. elim v [ number n ↦ some n | _ ↦ none ];
  as_u64 = λ v. elim v [ number n ↦ some n | _ ↦ none ];
}

abbrev pub Toy : Type 0
Toy = World ℕ ℕ Tree ℕ ℕ

-- The machine holds the script's text. A script saves its hit points when it is unloaded, and fails in
-- its frame.
abbrev pub toy : Lua Toy ℕ ℕ
toy = record {
  Vm = Str;
  installed = ([], none);
  exec = λ src name vm w. (src, w, none);
  function = λ name vm.
      if str_eq name (str "on_unload")
      then some (λ vm w. (vm, record w { store = Store.set (str "hp") (count 9) w.store }, none))
      else if str_eq name (str "on_frame")
      then some (λ vm w. (vm, w, some (str "boom")))
      else none;
  callback = λ key vm. none;
}
