-- ===== src/Engine/Select.antt =====
-- `select_bulk`: the reads of one batch, stalest first and within the budget.
pub mod Order
pub mod Admission
use sni_lua.Common.Sort.{sort_by}
use sni_lua.Common.{
  ℕ, ◌-◌, Bool, true, false, ◌&&◌, ◌||◌, List, [], ◌∷◌, if◌then◌else◌, ltb, leb, ◌==◌, min,
}
use sni_lua.Engine.Pending.{ReadStates, state_of}
use sni_lua.Engine.Split.{Member}
use sni_lua.Watch.Coalesce.{CoalescedRead}
use sni_lua.Watch.{rank}

pub record BulkSelection : Type 0 where
  pub reads : List CoalescedRead
  pub capped : Bool

-- `min` of the members' last refresh cycles, from one of them on
unfoldable pub oldest_from : ReadStates → ℕ → List Member → ℕ
oldest_from read_state least [] = least
oldest_from read_state least (m ∷ ms) =
    oldest_from read_state (min least (state_of read_state m.0).refresh_cycle) ms

-- `min().unwrap_or(0)`
unfoldable pub oldest_refresh : ReadStates → List Member → ℕ
unfolding oldest_from
oldest_refresh read_state [] = 0
oldest_refresh read_state (m ∷ ms) =
    oldest_from read_state (state_of read_state m.0).refresh_cycle ms

unfoldable pub staleness : ReadStates → ℕ → CoalescedRead → ℕ
unfolding oldest_refresh
staleness read_state cycle r = cycle - oldest_refresh read_state r.members

-- The comparison of `sort_by` does not put `a` behind `b`.
abbrev pub goes_first : ReadStates → ℕ → CoalescedRead → CoalescedRead → Bool
goes_first read_state cycle a b =
    let sa = staleness read_state cycle a in
    let sb = staleness read_state cycle b in
    ltb sb sa
    || (sa == sb
        && (ltb (rank a.priority) (rank b.priority)
            || (rank a.priority == rank b.priority && leb a.region.address b.region.address)))

-- The `for` over the sorted reads; `none_yet` is `selected.is_empty()`.
unfoldable pub admit : ℕ → Bool → List CoalescedRead → BulkSelection
admit remaining none_yet [] = record { reads = []; capped = false }
admit remaining none_yet (r ∷ rs) =
    let fits = admit (remaining - r.region.size) false rs in
    let skips = admit remaining false rs in
    if leb r.region.size remaining
    then record fits { reads = r ∷ fits.reads }
    else if none_yet
    then record { reads = r ∷ []; capped = true }
    else record skips { capped = true }

unfoldable pub select_bulk : List CoalescedRead → ℕ → ReadStates → ℕ → BulkSelection
unfolding staleness admit sort_by
select_bulk reads budget read_state cycle =
    admit budget true (sort_by (goes_first read_state cycle) reads)
