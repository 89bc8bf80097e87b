-- ===== src/Watch/Coalesce/Groups.antt =====
-- The groups of `by_space`, and what the reads of all of them hold together.
use mathlib.Core.List.Permᴰ
use mathlib.Core.List.{append_assoc, append-nil, map-append}
use sni_lua.Common.Sort.{sort_by, sort_by-perm}
use sni_lua.Common.{
  ℕ, ◌≡◌, refl, List, [], ◌∷◌, ◌++◌, map, Permᴰ, All, All-append, All-perm, flat_map,
  flat_map-append, true, arith, Bool-cases, inl, inr,
}
use sni_lua.Watch.Coalesce.Members.{restored, wanted, IsGroup, restored-coalesce_sorted}
use sni_lua.Watch.Coalesce.{
  CoalescedRead, Space, space_of, space_eq, space_lt, Groups, push_group, group_by_space,
  by_address, coalesce_sorted, coalesce,
}
use sni_lua.Watch.{WatchHandle, InRange}

space_eq→eq : (j k : Space) → space_eq j k ≡ true → j ≡ k
space_eq→eq (a, b) (c, d) h = ground arith

push_group-IsGroup :
    (w : WatchHandle) (g : Groups)
    → InRange w.region
    → All IsGroup g
    → All IsGroup (push_group (space_of w) w g)
unfolding push_group
push_group-IsGroup w [] hw h = (((hw, refl), tt), tt)
push_group-IsGroup w ((j, ws) ∷ g) hw h = elim (Bool-cases (space_eq (space_of w) j)) [
  | inl e ↦
      rw (e, push_group)
        (All-append _ ws (w ∷ []) h.0 ((hw, space_eq→eq (space_of w) j e), tt), h.1)
  | inr e ↦ elim (Bool-cases (space_lt (space_of w) j)) [
    | inl l ↦ rw (e, l, push_group) (((hw, refl), tt), h)
    | inr l ↦ rw (e, l, push_group) (h.0, push_group-IsGroup w g hw h.1)
  ]
]

abbrev pub grouped : Groups → List WatchHandle
grouped = flat_map (λ g. g.1)

push_group-perm :
    (k : Space) (w : WatchHandle) (g : Groups) → Permᴰ (w ∷ grouped g) (grouped (push_group k w g))
unfolding push_group
push_group-perm k w [] = Permᴰ.refl (w ∷ [])
push_group-perm k w ((j, ws) ∷ g) = elim (Bool-cases (space_eq k j)) [
  | inl e ↦
      rw (e, push_group, append_assoc ws (w ∷ []) (grouped g)) (Permᴰ.symm (Permᴰ.middle w ws _))
  | inr e ↦ elim (Bool-cases (space_lt k j)) [
    | inl l ↦ rw (e, l, push_group) (Permᴰ.refl _)
    | inr l ↦
        rw (e, l, push_group)
          (Permᴰ.trans (Permᴰ.symm (Permᴰ.middle w ws _))
            (Permᴰ.append_left ws (push_group-perm k w g)))
  ]
]

pub group_by_space-IsGroup :
    (ws : List WatchHandle) (g : Groups)
    → All (λ w. InRange w.region) ws
    → All IsGroup g
    → All IsGroup (group_by_space ws g)
unfolding group_by_space
group_by_space-IsGroup [] g hw h = h
group_by_space-IsGroup (w ∷ ws) g hw h =
    group_by_space-IsGroup ws _ hw.1 (push_group-IsGroup w g hw.0 h)

group_by_space-perm :
    (ws : List WatchHandle) (g : Groups) → Permᴰ (ws ++ grouped g) (grouped (group_by_space ws g))
unfolding group_by_space
group_by_space-perm [] g = Permᴰ.refl _
group_by_space-perm (w ∷ ws) g = Permᴰ.trans (Permᴰ.symm (Permᴰ.middle w ws (grouped g))) (
    Permᴰ.trans (Permᴰ.append_left ws (push_group-perm (space_of w) w g))
      (group_by_space-perm ws (push_group (space_of w) w g)))

abbrev pub merge_group : ℕ → Space × List WatchHandle → List CoalescedRead
merge_group gap g = coalesce_sorted gap (sort_by by_address g.1)

restored-merge_group :
    (gap : ℕ) (g : Groups)
    → All IsGroup g
    → Permᴰ (map wanted (grouped g)) (flat_map restored (flat_map (merge_group gap) g))
restored-merge_group gap [] h = Permᴰ.nil
restored-merge_group gap ((k, ws) ∷ g) h =
    rw
      (
        map-append wanted ws _,
        flat_map-append,
        restored-coalesce_sorted gap k (sort_by by_address ws)
            (All-perm _ (sort_by-perm by_address ws) h.0),
      )
      (Permᴰ.trans (Permᴰ.append_right _ (Permᴰ.map wanted (sort_by-perm by_address ws)))
        (Permᴰ.append_left _ (restored-merge_group gap g h.1)))

-- Merging keeps every watch: read back out of the merged regions, the members are the watches
-- that were given, each once, with the id, the address, the size and the space that it had, for
-- watches that end below 2 ^ 32 and every gap.
pub restored-coalesce :
    (ws : List WatchHandle) (gap : ℕ)
    → All (λ w. InRange w.region) ws
    → Permᴰ (map wanted ws) (flat_map restored (coalesce ws gap))
unfolding coalesce
restored-coalesce ws gap h =
    Permᴰ.trans (Permᴰ.map wanted (rw append-nil at (group_by_space-perm ws [])))
      (restored-merge_group gap (group_by_space ws []) (group_by_space-IsGroup ws [] h tt))
