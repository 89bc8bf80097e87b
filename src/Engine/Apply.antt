-- ===== src/Engine/Apply.antt =====
-- `apply_reads`: each blob sliced back to the members of its read.
pub mod Slices
pub mod Cycle
pub mod Fresh
use sni_lua.Client.{MemRegion}
use sni_lua.Common.{ℕ, ◌+◌, List, [], ◌∷◌, if◌then◌else◌, leb, length, take, drop, add32}
use sni_lua.Engine.Split.{Member}
use sni_lua.Snapshot.{SnapshotBuilder, set}
use sni_lua.Watch.Coalesce.{CoalescedRead}

-- `blob[o..o + s].to_vec()`
abbrev pub slice : ℕ → ℕ → List ℕ → List ℕ
slice o s blob = take s (drop o blob)

unfoldable pub apply_member : CoalescedRead → List ℕ → Member → SnapshotBuilder → SnapshotBuilder
apply_member read blob (wid, off, sz) builder =
    if leb (off + sz) (length blob)
    then set builder wid
        (record {
          address = add32 read.region.address off;
          size = sz;
          space = read.region.space;
          mapping = read.region.mapping;
        })
        (slice off sz blob)
    else builder

-- the inner `for`
unfoldable pub apply_members :
    CoalescedRead → List ℕ → List Member → SnapshotBuilder → SnapshotBuilder
unfolding apply_member
apply_members read blob [] builder = builder
apply_members read blob (m ∷ ms) builder =
    apply_members read blob ms (apply_member read blob m builder)

-- `zip` ends with the shorter list
unfoldable pub apply_reads : List CoalescedRead → List (List ℕ) → SnapshotBuilder → SnapshotBuilder
unfolding apply_members
apply_reads [] blobs builder = builder
apply_reads (read ∷ reads) [] builder = builder
apply_reads (read ∷ reads) (blob ∷ blobs) builder =
    apply_reads reads blobs (apply_members read blob read.members builder)
