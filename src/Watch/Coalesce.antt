-- ===== src/Watch/Coalesce.antt =====
-- `coalesce` and `finish_run`. Addresses and sizes are `u32`, and sums wrap as in a release build.
pub mod Members
pub mod Groups
pub mod Bounds
pub mod Apart
pub mod Spaces
use sni_lua.Client.{MemRegion, space_i32, mapping_i32}
use sni_lua.Common.Sort.{sort_by}
use sni_lua.Common.{
  ℕ, Bool, false, true, ◌||◌, ◌&&◌, List, [], ◌∷◌, ◌++◌, map, if◌then◌else◌, ltb, leb, ◌==◌, add32,
  sub32, saturating_add32, max, flat_map,
}
use sni_lua.Watch.{WatchPriority, rank, low, WatchHandle}

pub record CoalescedRead : Type 0 where
  pub region : MemRegion
  -- watch id, byte offset within `region`, watch size
  pub members : List (ℕ × ℕ × ℕ)
  pub priority : WatchPriority

-- `(w.region.space as i32, w.region.mapping as i32)`, and the order of such pairs
abbrev pub Space : Type 0
Space = ℕ × ℕ

abbrev pub space_of : WatchHandle → Space
space_of w = (space_i32 w.region.space, mapping_i32 w.region.mapping)

abbrev space_eq : Space → Space → Bool
space_eq (a, b) (c, d) = a == c && b == d

abbrev space_lt : Space → Space → Bool
space_lt (a, b) (c, d) = ltb a c || (a == c && ltb b d)

abbrev pub Groups : Type 0
Groups = List (Space × List WatchHandle)

-- `by_space.entry(k).or_default().push(w)`, on the map in key order
unfoldable pub push_group : Space → WatchHandle → Groups → Groups
push_group k w [] = (k, w ∷ []) ∷ []
push_group k w ((j, ws) ∷ g) =
    let rest = push_group k w g in
    if space_eq k j
    then (j, ws ++ w ∷ []) ∷ g
    else if space_lt k j
    then (k, w ∷ []) ∷ (j, ws) ∷ g
    else (j, ws) ∷ rest

-- the first `for` of `coalesce`
unfoldable pub group_by_space : List WatchHandle → Groups → Groups
unfolding push_group
group_by_space [] g = g
group_by_space (w ∷ ws) g = group_by_space ws (push_group (space_of w) w g)

abbrev pub by_address : WatchHandle → WatchHandle → Bool
by_address a b = leb a.region.address b.region.address

-- `members.iter().map(|w| w.priority).min()`, from the first member on
unfoldable pub min_priority : WatchPriority → List WatchHandle → WatchPriority
min_priority p [] = p
min_priority p (w ∷ ws) = min_priority (if ltb (rank w.priority) (rank p) then w.priority else p) ws

abbrev pub member_of : ℕ → WatchHandle → ℕ × ℕ × ℕ
member_of start w = (w.id, sub32 w.region.address start, w.region.size)

-- `members` is never empty: the run's first watch is an argument of its own.
unfoldable pub finish_run : ℕ → ℕ → WatchHandle → List WatchHandle → CoalescedRead
unfolding min_priority
finish_run start end proto members = record {
  region = record {
    address = start;
    size = sub32 end start;
    space = proto.region.space;
    mapping = proto.region.mapping;
  };
  members = map (member_of start) (proto ∷ members);
  priority = min_priority proto.priority members;
}

-- The loop over `group[1..]`. The current run is `cur_start`, `cur_end` and `cur_members`, here
-- its first watch and the others in the order in which they were pushed.
unfoldable pub coalesce_group :
    ℕ → ℕ → ℕ → WatchHandle → List WatchHandle → List WatchHandle → List CoalescedRead
unfolding finish_run
coalesce_group gap cur_start cur_end head members [] =
    finish_run cur_start cur_end head members ∷ []
coalesce_group gap cur_start cur_end head members (w ∷ ws) =
    let watch_end = add32 w.region.address w.region.size in
    let extend = coalesce_group gap cur_start (max cur_end watch_end) head (members ++ w ∷ []) ws in
    let start_new = coalesce_group gap w.region.address watch_end w [] ws in
    if leb w.region.address (saturating_add32 cur_end gap)
    then extend
    else finish_run cur_start cur_end head members ∷ start_new

-- one round of the second `for`: a group of `by_space` is never empty
unfoldable pub coalesce_sorted : ℕ → List WatchHandle → List CoalescedRead
unfolding coalesce_group
coalesce_sorted gap [] = []
coalesce_sorted gap (w ∷ ws) =
    coalesce_group gap w.region.address (add32 w.region.address w.region.size) w [] ws

unfoldable pub coalesce : List WatchHandle → ℕ → List CoalescedRead
unfolding group_by_space coalesce_sorted sort_by
coalesce watches gap =
    flat_map (λ g. coalesce_sorted gap (sort_by by_address g.1)) (group_by_space watches [])
