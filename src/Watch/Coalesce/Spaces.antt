-- ===== src/Watch/Coalesce/Spaces.antt =====
-- The groups of `by_space` have distinct keys, so that reads of different groups are apart too.
use sni_lua.Common.Sort.{sort_by, sort_by-perm}
use sni_lua.Common.{
  ℕ, ◌≡◌, ◌≢◌, sym, ◌∙◌, List, [], ◌∷◌, All, All-append, All-perm, All-map_of, inl, inr, flat_map,
  true, false, arith, Bool-cases,
}
use sni_lua.Watch.Coalesce.Apart.{read_space, AllApart, AllApart-append, group-AllApart}
use sni_lua.Watch.Coalesce.Bounds.{by_address-IsSorted}
use sni_lua.Watch.Coalesce.Groups.{merge_group, group_by_space-IsGroup}
use sni_lua.Watch.Coalesce.Members.{IsGroup}
use sni_lua.Watch.Coalesce.{
  Space, space_of, space_eq, space_lt, Groups, push_group, group_by_space, by_address, coalesce,
}
use sni_lua.Watch.{WatchHandle, InRange}

-- The keys of `by_space` ascend, so no space has two groups.
abbrev KeysAscend : Groups → Type 0
KeysAscend [] = Unit
KeysAscend (e ∷ g) = All (λ d. space_lt e.0 d.0 ≡ true) g × KeysAscend g

space_lt_trans : (a b c : Space) → space_lt a b ≡ true → space_lt b c ≡ true → space_lt a c ≡ true
space_lt_trans (a, a') (b, b') (c, c') h k = ground arith

space_lt-total : (a b : Space) → space_eq a b ≡ false → space_lt a b ≡ false → space_lt b a ≡ true
space_lt-total (a, a') (b, b') h k = ground arith

space_lt-ne : (a b : Space) → space_lt a b ≡ true → a ≢ b
space_lt-ne (a, a') (b, b') h e = ground arith

All-push_group :
    (P : Space → Type 0) (k : Space) (w : WatchHandle) (g : Groups)
    → P k
    → All (λ d. P d.0) g
    → All (λ d. P d.0) (push_group k w g)
unfolding push_group
All-push_group P k w [] p h = (p, tt)
All-push_group P k w ((j, ws) ∷ g) p h = elim (Bool-cases (space_eq k j)) [
  | inl e ↦ rw (e, push_group) h
  | inr e ↦ elim (Bool-cases (space_lt k j)) [
    | inl l ↦ rw (e, l, push_group) (p, h)
    | inr l ↦ rw (e, l, push_group) (h.0, All-push_group P k w g p h.1)
  ]
]

push_group-KeysAscend :
    (k : Space) (w : WatchHandle) (g : Groups) → KeysAscend g → KeysAscend (push_group k w g)
unfolding push_group
push_group-KeysAscend k w [] h = (tt, tt)
push_group-KeysAscend k w ((j, ws) ∷ g) h = elim (Bool-cases (space_eq k j)) [
  | inl e ↦ rw (e, push_group) h
  | inr e ↦ elim (Bool-cases (space_lt k j)) [
    | inl l ↦ rw (e, l, push_group) ((l, All-map_of _ _ (λ d. space_lt_trans k j d.0 l) g h.0), h)
    | inr l ↦
        rw (e, l, push_group)
          (
            All-push_group (λ d. space_lt j d ≡ true) k w g (space_lt-total k j e l) h.0,
            push_group-KeysAscend k w g h.1,
          )
  ]
]

group_by_space-KeysAscend :
    (ws : List WatchHandle) (g : Groups) → KeysAscend g → KeysAscend (group_by_space ws g)
unfolding group_by_space
group_by_space-KeysAscend [] g h = h
group_by_space-KeysAscend (w ∷ ws) g h =
    group_by_space-KeysAscend ws _ (push_group-KeysAscend (space_of w) w g h)

merge_group-AllApart :
    (gap : ℕ) (k : Space) (ws : List WatchHandle)
    → IsGroup (k, ws)
    → AllApart gap (merge_group gap (k, ws)) × All (λ r. read_space r ≡ k) (merge_group gap (k, ws))
merge_group-AllApart gap k ws h =
    group-AllApart gap k (sort_by by_address ws) (All-perm _ (sort_by-perm by_address ws) h)
      (by_address-IsSorted ws)

-- a property of the keys holds of the spaces of the reads
All-read_space :
    (P : Space → Type 0) (gap : ℕ) (g : Groups)
    → All IsGroup g
    → All (λ d. P d.0) g
    → All (λ r. P (read_space r)) (flat_map (merge_group gap) g)
All-read_space P gap [] h p = tt
All-read_space P gap ((k, ws) ∷ g) h p =
    All-append (λ r. P (read_space r)) (merge_group gap (k, ws)) _
      (All-map_of _ _ (λ r e. rw e p.0) _ (merge_group-AllApart gap k ws h.0).1)
      (All-read_space P gap g h.1 p.1)

groups-AllApart :
    (gap : ℕ) (g : Groups)
    → All IsGroup g
    → KeysAscend g
    → AllApart gap (flat_map (merge_group gap) g)
groups-AllApart gap [] h a = tt
groups-AllApart gap ((k, ws) ∷ g) h a =
    AllApart-append gap (merge_group gap (k, ws)) _ (merge_group-AllApart gap k ws h.0).0
      (groups-AllApart gap g h.1 a.1)
      (All-map_of _ _
        (λ r e.
          All-map_of _ _ (λ r' l. inl (λ q. space_lt-ne k (read_space r') l (sym e ∙ q))) _
            (All-read_space (λ j. space_lt k j ≡ true) gap g h.1 a.0))
        _ (merge_group-AllApart gap k ws h.0).1)

-- Of any two merged reads, the later one is of another address space or mapping, or begins more
-- than the gap behind the end of the earlier one: no two of them could have been fused. For
-- watches that end below 2 ^ 32.
pub coalesce-AllApart :
    (ws : List WatchHandle) (gap : ℕ)
    → All (λ w. InRange w.region) ws
    → AllApart gap (coalesce ws gap)
unfolding coalesce
coalesce-AllApart ws gap h =
    groups-AllApart gap (group_by_space ws []) (group_by_space-IsGroup ws [] h tt)
      (group_by_space-KeysAscend ws [] tt)
