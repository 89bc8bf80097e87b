-- ===== src/Tests/Reads.antt =====
-- Merging, splitting, selecting and applying at concrete inputs.
use sni_lua.Common.Map
use sni_lua.Common.{
  ℕ, ◌≤◌, ◌≡◌, ◌≢◌, refl, List, [], ◌∷◌, map, any, All, Memᴰ, Permᴰ, flat_map, arith, length, inl,
  ap,
}
use sni_lua.Engine.Apply.Cycle.{AllSized, apply_reads-avoided}
use sni_lua.Engine.Apply.Fresh.{reply_of, apply_reads-split}
use sni_lua.Engine.Apply.Slices.{bytes_from}
use sni_lua.Engine.Apply.{apply_reads}
use sni_lua.Engine.Pending.Marks.{has_member, pending_beside, read_is_pending-marked}
use sni_lua.Engine.Pending.{Requests, ReadStates, read_is_pending, mark_fulfilled, mark_done}
use sni_lua.Engine.Select.Admission.{select_bulk-stalest}
use sni_lua.Engine.Select.{staleness, select_bulk}
use sni_lua.Engine.Split.Bounds.{KeepsTo, split_reads_to_budget-KeepsTo}
use sni_lua.Engine.Split.Members.{restored-split_reads_to_budget}
use sni_lua.Engine.Split.{split_reads_to_budget}
use sni_lua.Snapshot.Builder.{built, fresh, unread}
use sni_lua.Snapshot.{SnapshotBuilder}
use sni_lua.Tests.Data.{at, health, two, two_in_range, two_distinct, console}
use sni_lua.Watch.Coalesce.Bounds.{IsWithin, coalesce-IsWithin}
use sni_lua.Watch.Coalesce.Groups.{restored-coalesce}
use sni_lua.Watch.Coalesce.Members.{restored, wanted}
use sni_lua.Watch.Coalesce.{CoalescedRead, coalesce}

abbrev merged : List CoalescedRead
merged = coalesce two 16

restored-coalesce_example : Permᴰ (map wanted two) (flat_map restored merged)
restored-coalesce_example = restored-coalesce two 16 two_in_range

coalesce-IsWithin_example : All IsWithin merged
coalesce-IsWithin_example = coalesce-IsWithin two 16 two_in_range

restored-split_reads_to_budget_example :
    Permᴰ (flat_map restored merged) (flat_map restored (split_reads_to_budget merged 4))
restored-split_reads_to_budget_example = restored-split_reads_to_budget merged 4

split_reads_to_budget-KeepsTo_example : All (KeepsTo 4) (split_reads_to_budget merged 4)
split_reads_to_budget-KeepsTo_example = split_reads_to_budget-KeepsTo merged 4

abbrev blank : SnapshotBuilder
blank = record { bytes_of = []; regions = []; age_cycles = [] }

apply_reads-split_example :
    let reads = split_reads_to_budget (coalesce two 16) 4 in
    built (apply_reads reads (reply_of console reads) blank) 0 ≡ fresh (at 0x100 2) (263 ∷ 264 ∷ [])
unfolding bytes_from
apply_reads-split_example =
    apply_reads-split console two 16 4 blank two_in_range two_distinct health
      (Memᴰ.tail (Memᴰ.head refl))

-- a read of both watches, with the reply cut short
abbrev both : CoalescedRead
both = record {
  region = at 0x100 10;
  members = (0, 0, 2) ∷ (1, 6, 4) ∷ [];
  priority = health.priority;
}

blank-AllSized : AllSized blank
unfolding Map.get
blank-AllSized = record { sized = λ id. inl refl }

apply_reads-avoided_example :
    built (apply_reads (both ∷ []) ((1 ∷ 2 ∷ 3 ∷ []) ∷ []) blank) 7 ≡ unread
unfolding has_member Map.get
apply_reads-avoided_example =
    apply_reads-avoided 7 (both ∷ []) ((1 ∷ 2 ∷ 3 ∷ []) ∷ []) blank (refl, tt)

abbrev asked : Requests
asked = (0, 4) ∷ (1, 5) ∷ []

abbrev states : ReadStates
states = (0, record { request_seq = 3; refresh_cycle = 8 }) ∷ []

abbrev one : CoalescedRead
one = record { region = at 0x100 2; members = (0, 0, 2) ∷ []; priority = health.priority }

read_is_pending-marked_example :
    (read_is_pending both asked (mark_fulfilled (one ∷ []) asked 9 states) (mark_done (one ∷ []) [])
      ≡ any (pending_beside (one ∷ []) asked states []) both.members)
    × ((other : List ℕ)
        → read_is_pending both asked (mark_fulfilled (one ∷ []) asked 9 states) other
          ≡ any (pending_beside (one ∷ []) asked states other) both.members)
read_is_pending-marked_example = read_is_pending-marked (one ∷ []) asked 9 states [] both

cons-not_empty : (both ∷ one ∷ []) ≢ []
cons-not_empty e = ground (arith, ap length e)

select_bulk-stalest_example :
    (first : CoalescedRead) × (rest : List CoalescedRead) × ((select_bulk
        (both ∷ one ∷ [])
        4
        states
        9).reads
      ≡ first ∷ rest)
    × All (λ r. staleness states 9 r ≤ staleness states 9 first) (both ∷ one ∷ [])
select_bulk-stalest_example = select_bulk-stalest (both ∷ one ∷ []) 4 states 9 cons-not_empty
