-- ===== src/Watch.antt =====
-- crates/sni-cache/src/watch.rs: the watch types. The children hold the priorities' tests, the
-- registry and the merging of watches into reads.
pub mod Registry
pub mod Coalesce
use sni_lua.Client.{MemRegion}
use sni_lua.Common.{
  ℕ, Bool, true, false, if◌then◌else◌, ◌+◌, ◌<◌, u32_mod, Str, str, str_eq, to_ascii_lowercase,
  ◌||◌,
}

pub data WatchPriority : Type 0 where
  realtime high normal low : WatchPriority

-- The derived `Ord`: the order of the variants.
abbrev pub rank : WatchPriority → ℕ
rank realtime = 0
rank high = 1
rank normal = 2
rank low = 3

unfoldable pub period : WatchPriority → ℕ
period realtime = 1
period high = 1
period normal = 3
period low = 12

unfoldable pub is_realtime : WatchPriority → Bool
is_realtime realtime = true
is_realtime _ = false

unfoldable pub parse : Str → WatchPriority
unfolding str_eq
parse s =
    let l = to_ascii_lowercase s in
    if str_eq l (str "realtime") || str_eq l (str "input")
    then realtime
    else if str_eq l (str "high")
    then high
    else if str_eq l (str "low") || str_eq l (str "prefetch")
    then low
    else normal

pub record WatchHandle : Type 0 where
  pub id : ℕ
  pub region : MemRegion
  pub priority : WatchPriority

-- A region that a 32-bit address space holds: the exclusive end is still a `u32`.
pub record InRange (r : MemRegion) : Type 0 where
  pub fits : r.address + r.size < u32_mod
