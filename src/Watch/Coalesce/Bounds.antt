-- ===== src/Watch/Coalesce/Bounds.antt =====
-- The merged regions: in range, and large enough for each of their members.
use sni_lua.Common.Sort.{sort_by, sort_by-perm, sort_by-IsSorted, IsSorted}
use sni_lua.Common.{
  ℕ, ◌+◌, ◌≤◌, ◌<◌, ◌≡◌, List, [], ◌∷◌, ◌++◌, map, All, All-append, All-perm, All-map_of, flat_map,
  true, arith, Bool-cases, inl, inr, add32, u32_mod, saturating_add32, leb, leb→le, leb_total,
  leb_trans, max,
}
use sni_lua.Watch.Coalesce.Groups.{merge_group, group_by_space-IsGroup}
use sni_lua.Watch.Coalesce.Members.{IsGroup}
use sni_lua.Watch.Coalesce.{
  CoalescedRead, Groups, group_by_space, by_address, member_of, finish_run, coalesce_group,
  coalesce_sorted, coalesce,
}
use sni_lua.Watch.{WatchHandle, InRange}

-- The slice of a member lies inside the read's blob.
abbrev pub Inside : CoalescedRead → ℕ × ℕ × ℕ → Type 0
Inside r (id, off, size) = off + size ≤ r.region.size

pub record IsWithin (r : CoalescedRead) : Type 0 where
  pub in_range : InRange r.region
  pub inside : All (Inside r) r.members

-- what the loop of `coalesce` knows of a watch in the current run
abbrev Covers : ℕ → ℕ → WatchHandle → Type 0
Covers start end w = (start ≤ w.region.address) × (w.region.address + w.region.size ≤ end)

Covers-mono :
    (start end end' : ℕ) → end ≤ end' → (w : WatchHandle) → Covers start end w → Covers start end' w
Covers-mono start end end' h w c = omega arith

module _ (start end : ℕ) (head : WatchHandle) (ws : List WatchHandle) (he : end < u32_mod) where
  members-Inside :
      (l : List WatchHandle)
      → All (Covers start end) l
      → All (Inside (finish_run start end head ws)) (map (member_of start) l)
  unfolding finish_run
  members-Inside [] h = tt
  members-Inside (w ∷ l) h = (omega arith, members-Inside l h.1)

  finish_run-IsWithin : All (Covers start end) (head ∷ ws) → IsWithin (finish_run start end head ws)
  unfolding finish_run
  finish_run-IsWithin h = record { in_range = omega arith; inside = members-Inside (head ∷ ws) h }

-- The rest of a sorted group: in range, and not below the current start.
abbrev Follows : ℕ → WatchHandle → Type 0
Follows start w = InRange w.region × (start ≤ w.region.address)

coalesce_group-IsWithin :
    (gap start end : ℕ) (head : WatchHandle) (ms ws : List WatchHandle)
    → end < u32_mod
    → All (Covers start end) (head ∷ ms)
    → All (Follows start) ws
    → IsSorted by_address ws
    → All IsWithin (coalesce_group gap start end head ms ws)
unfolding coalesce_group
coalesce_group-IsWithin gap start end head ms [] he hm hw s =
    (finish_run-IsWithin start end head ms he hm, tt)
coalesce_group-IsWithin gap start end head ms (w ∷ ws) he hm hw s =
    elim (Bool-cases (leb w.region.address (saturating_add32 end gap))) [
      | inl e ↦
          let end' = max end (add32 w.region.address w.region.size) in
          rw (e, coalesce_group)
            (coalesce_group-IsWithin gap start end' head (ms ++ w ∷ []) ws (omega (arith, hw.0.0))
              (All-append (Covers start end') (head ∷ ms) (w ∷ [])
                (All-map_of _ _ (Covers-mono start end end' (omega arith)) (head ∷ ms) hm)
                ((omega (arith, hw.0.0, hw.0.1), omega (arith, hw.0.0)), tt))
              hw.1 s.1)
      | inr e ↦
          rw (e, coalesce_group)
            (
              finish_run-IsWithin start end head ms he hm,
              coalesce_group-IsWithin gap w.region.address (add32 w.region.address w.region.size) w
                  [] ws (omega (arith, hw.0.0)) ((omega arith, omega (arith, hw.0.0)), tt)
                  (All-map_of₂ ws hw.1 s.0) s.1,
            )
    ]
  where
    All-map_of₂ :
        (l : List WatchHandle)
        → All (Follows start) l
        → All (λ v. by_address w v ≡ true) l
        → All (Follows w.region.address) l
    All-map_of₂ [] f b = tt
    All-map_of₂ (v ∷ l) f b =
        ((f.0.0, leb→le w.region.address v.region.address b.0), All-map_of₂ l f.1 b.1)

coalesce_sorted-IsWithin :
    (gap : ℕ) (ws : List WatchHandle)
    → All (λ w. InRange w.region) ws
    → IsSorted by_address ws
    → All IsWithin (coalesce_sorted gap ws)
unfolding coalesce_sorted
coalesce_sorted-IsWithin gap [] h s = tt
coalesce_sorted-IsWithin gap (w ∷ ws) h s =
    coalesce_group-IsWithin gap w.region.address (add32 w.region.address w.region.size) w [] ws
      (omega (arith, h.0)) ((omega arith, omega (arith, h.0)), tt) (after ws h.1 s.0) s.1
  where
    after :
        (l : List WatchHandle)
        → All (λ v. InRange v.region) l
        → All (λ v. by_address w v ≡ true) l
        → All (Follows w.region.address) l
    after [] f b = tt
    after (v ∷ l) f b = ((f.0, leb→le w.region.address v.region.address b.0), after l f.1 b.1)

pub by_address-IsSorted : (ws : List WatchHandle) → IsSorted by_address (sort_by by_address ws)
by_address-IsSorted =
    sort_by-IsSorted by_address (λ a b. leb_total a.region.address b.region.address)
      (λ a b c. leb_trans a.region.address b.region.address c.region.address)

groups-IsWithin :
    (gap : ℕ) (g : Groups) → All IsGroup g → All IsWithin (flat_map (merge_group gap) g)
groups-IsWithin gap [] h = tt
groups-IsWithin gap ((k, ws) ∷ g) h =
    All-append IsWithin (merge_group gap (k, ws)) _
      (coalesce_sorted-IsWithin gap (sort_by by_address ws)
        (All-perm _ (sort_by-perm by_address ws) (All-map_of _ _ (λ w s. s.0) ws h.0))
        (by_address-IsSorted ws))
      (groups-IsWithin gap g h.1)

-- Every merged read ends below 2 ^ 32 and holds the whole of each of its members, so no slice of
-- a full reply is cut short; for watches that end below 2 ^ 32 and every gap.
pub coalesce-IsWithin :
    (ws : List WatchHandle) (gap : ℕ)
    → All (λ w. InRange w.region) ws
    → All IsWithin (coalesce ws gap)
unfolding coalesce
coalesce-IsWithin ws gap h =
    groups-IsWithin gap (group_by_space ws []) (group_by_space-IsGroup ws [] h tt)
