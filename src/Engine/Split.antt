-- ===== src/Engine/Split.antt =====
-- `split_reads_to_budget`. The two nested `while` loops over `members[i..]` are one recursion:
-- each member either joins the current chunk or closes it and begins the next.
pub mod Members
pub mod Bounds
use sni_lua.Client.{MemRegion}
use sni_lua.Common.Sort.{sort_by}
use sni_lua.Common.{
  ℕ, Bool, List, [], ◌∷◌, ◌++◌, flat_map, if◌then◌else◌, ltb, leb, max, add32, sub32,
}
use sni_lua.Watch.Coalesce.{CoalescedRead}

abbrev pub Member : Type 0
Member = ℕ × ℕ × ℕ

abbrev pub by_offset : Member → Member → Bool
by_offset a b = leb a.1 b.1

unfoldable pub make_chunk : CoalescedRead → ℕ → ℕ → List Member → CoalescedRead
make_chunk read chunk_start chunk_end chunk_members = record {
  region = record {
    address = chunk_start;
    size = sub32 chunk_end chunk_start;
    space = read.region.space;
    mapping = read.region.mapping;
  };
  members = chunk_members;
  priority = read.priority;
}

unfoldable pub chunks : ℕ → CoalescedRead → ℕ → ℕ → List Member → List Member → List CoalescedRead
unfolding make_chunk
chunks budget read chunk_start chunk_end chunk_members [] =
    make_chunk read chunk_start chunk_end chunk_members ∷ []
chunks budget read chunk_start chunk_end chunk_members ((id, off, size) ∷ ms) =
    let member_start = add32 read.region.address off in
    let member_end = add32 member_start size in
    let candidate_end = max chunk_end member_end in
    let next = chunks budget read member_start member_end ((id, 0, size) ∷ []) ms in
    let joined =
      chunks budget read chunk_start candidate_end
        (chunk_members ++ (id, sub32 member_start chunk_start, size) ∷ []) ms in
    if ltb budget (sub32 candidate_end chunk_start)
    then make_chunk read chunk_start chunk_end chunk_members ∷ next
    else joined

unfoldable pub split_members : ℕ → CoalescedRead → List Member → List CoalescedRead
unfolding chunks
split_members budget read [] = []
split_members budget read ((id, off, size) ∷ ms) =
    let chunk_start = add32 read.region.address off in
    chunks budget read chunk_start (add32 chunk_start size) ((id, 0, size) ∷ []) ms

unfoldable pub split_read : ℕ → CoalescedRead → List CoalescedRead
unfolding split_members sort_by
split_read budget read =
    if leb read.region.size budget
    then read ∷ []
    else split_members budget read (sort_by by_offset read.members)

unfoldable pub split_reads_to_budget : List CoalescedRead → ℕ → List CoalescedRead
unfolding split_read
split_reads_to_budget reads budget = flat_map (split_read (max budget 1)) reads
