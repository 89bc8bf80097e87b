-- ===== src/Watch/Coalesce/Members.antt =====
-- What the reads hold: the watches that a read's members stand for, in their own addresses.
use mathlib.Core.List.{append_assoc, append-nil, map-append}
use sni_lua.Client.{AddressSpace, MemoryMapping, MemRegion, space_i32, mapping_i32}
use sni_lua.Common.{
  ℕ, ◌<◌, ◌≡◌, refl, sym, ap, ap₂, ◌∙◌, List, [], ◌∷◌, ◌++◌, map, All, All-append, All-map_of,
  flat_map, arith, add32, u32_mod, add32-sub32, leb, saturating_add32, Bool-cases, inl, inr, max,
}
use sni_lua.Watch.Coalesce.{
  CoalescedRead, Space, space_of, member_of, finish_run, coalesce_group, coalesce_sorted,
}
use sni_lua.Watch.{WatchHandle, InRange}

-- A member's own region, read off the merged one: what `apply_reads` stores for it.
abbrev pub member_region : CoalescedRead → ℕ × ℕ × ℕ → MemRegion
member_region r (id, off, size) = record {
  address = add32 r.region.address off;
  size = size;
  space = r.region.space;
  mapping = r.region.mapping;
}

abbrev pub restored : CoalescedRead → List (ℕ × MemRegion)
restored r = map (λ m. (m.0, member_region r m)) r.members

abbrev pub wanted : WatchHandle → ℕ × MemRegion
wanted w = (w.id, w.region)

space_i32-injective : (a b : AddressSpace) → space_i32 a ≡ space_i32 b → a ≡ b
space_i32-injective a b h = ground arith

mapping_i32-injective : (a b : MemoryMapping) → mapping_i32 a ≡ mapping_i32 b → a ≡ b
mapping_i32-injective a b h = ground arith

-- the merged region gives back a member's, whichever watch of the space began the run
member_region-finish_run :
    (start end : ℕ) (head w : WatchHandle) (ws : List WatchHandle)
    → start < u32_mod
    → InRange w.region
    → space_of w ≡ space_of head
    → member_region (finish_run start end head ws) (member_of start w) ≡ w.region
unfolding finish_run
member_region-finish_run start end head w ws hs hw e = ground (
  arith,
  add32-sub32 start w.region.address,
  space_i32-injective w.region.space head.region.space,
  mapping_i32-injective w.region.mapping head.region.mapping,
)

abbrev pub Shares : WatchHandle → WatchHandle → Type 0
Shares head w = InRange w.region × (space_of w ≡ space_of head)

module _ (start end : ℕ) (head : WatchHandle) (ws : List WatchHandle) (hs : start < u32_mod) where
  restored_members :
      (l : List WatchHandle)
      → All (Shares head) l
      → map (λ m. (m.0, member_region (finish_run start end head ws) m)) (map (member_of start) l)
        ≡ map wanted l
  restored_members [] h = refl
  restored_members (w ∷ l) h =
      ap₂ ◌∷◌ (ap (λ r. (w.id, r)) (member_region-finish_run start end head w ws hs h.0.0 h.0.1))
        (restored_members l h.1)

  restored-finish_run :
      All (Shares head) (head ∷ ws)
      → restored (finish_run start end head ws) ≡ map wanted (head ∷ ws)
  unfolding finish_run
  restored-finish_run h = restored_members (head ∷ ws) h

Shares-trans : (h w v : WatchHandle) → space_of w ≡ space_of h → Shares h v → Shares w v
Shares-trans h w v e s = (s.0, s.1 ∙ sym e)

restored-coalesce_group :
    (gap start end : ℕ) (head : WatchHandle) (ms ws : List WatchHandle)
    → start < u32_mod
    → All (Shares head) (head ∷ ms)
    → All (Shares head) ws
    → flat_map restored (coalesce_group gap start end head ms ws) ≡ map wanted (head ∷ ms ++ ws)
unfolding coalesce_group
restored-coalesce_group gap start end head ms [] hs hm hw =
    append-nil (restored (finish_run start end head ms))
    ∙ restored-finish_run start end head ms hs hm
    ∙ rw append-nil
restored-coalesce_group gap start end head ms (w ∷ ws) hs hm hw =
    elim (Bool-cases (leb w.region.address (saturating_add32 end gap))) [
      | inl e ↦
          rw (e, coalesce_group)
            (restored-coalesce_group gap start (max end (add32 w.region.address w.region.size)) head
                (ms ++ w ∷ []) ws hs (All-append (Shares head) (head ∷ ms) (w ∷ []) hm (hw.0, tt))
                hw.1
              ∙ ap (λ l. map wanted (head ∷ l)) (append_assoc ms (w ∷ []) ws))
      | inr e ↦
          rw (e, coalesce_group)
            (ap₂ ◌++◌ (restored-finish_run start end head ms hs hm) (
                restored-coalesce_group gap w.region.address (add32 w.region.address w.region.size)
                  w [] ws (omega (arith, hw.0.0)) ((hw.0.0, refl), tt)
                  (All-map_of (Shares head) (Shares w) (λ v. Shares-trans head w v hw.0.1) ws hw.1))
              ∙ sym (map-append wanted (head ∷ ms) (w ∷ ws)))
    ]

-- A group holds watches of its own space.
abbrev pub IsGroup : Space × List WatchHandle → Type 0
IsGroup g = All (λ w. InRange w.region × (space_of w ≡ g.0)) g.1

pub restored-coalesce_sorted :
    (gap : ℕ) (k : Space) (ws : List WatchHandle)
    → IsGroup (k, ws)
    → flat_map restored (coalesce_sorted gap ws) ≡ map wanted ws
unfolding coalesce_sorted
restored-coalesce_sorted gap k [] h = refl
restored-coalesce_sorted gap k (w ∷ ws) h =
    restored-coalesce_group gap w.region.address (add32 w.region.address w.region.size) w [] ws
      (omega (arith, h.0.0)) ((h.0.0, refl), tt)
      (All-map_of _ (Shares w) (λ v s. (s.0, s.1 ∙ sym h.0.1)) ws h.1)
