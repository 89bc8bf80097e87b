-- ===== src/Watch/Registry.antt =====
-- `WatchRegistry`. Each method takes its lock once, so it is one step on the state; the instants
-- that it reads from the clock are arguments, in any unit. A counter is an `AtomicU64`.
pub mod Invariant
pub mod Demand
use sni_lua.Client.{MemRegion}
use sni_lua.Common.Map
use sni_lua.Common.Map.{Map}
use sni_lua.Common.{
  ℕ, ◌-◌, Bool, false, true, ◌||◌, List, map, if◌then◌else◌, ltb, add64, retain, length,
  is_empty as list_is_empty,
}
use sni_lua.Watch.{WatchPriority, rank, WatchHandle}

pub record WatchEntry : Type 0 where
  pub handle : WatchHandle
  pub last_touch : ℕ
  pub request_seq : ℕ
  pub pinned : Bool

pub record WatchRegistry : Type 0 where
  pub next_id : ℕ
  pub next_request : ℕ
  pub inner : Map WatchEntry

unfoldable pub new : WatchRegistry
new = record { next_id = 0; next_request = 0; inner = Map.empty }

-- `next_request.fetch_add(1) + 1`: the marker, which is also what the counter then holds
abbrev pub next_seq : WatchRegistry → ℕ
next_seq reg = add64 reg.next_request 1

unfoldable pub register :
    WatchRegistry → MemRegion → WatchPriority → ℕ → WatchRegistry × WatchHandle
register reg region priority now =
    let handle : WatchHandle = record { id = reg.next_id; region = region; priority = priority } in
    let entry : WatchEntry = record {
      handle = handle;
      last_touch = now;
      request_seq = next_seq reg;
      pinned = false;
    } in
    (
      record {
        next_id = add64 reg.next_id 1;
        next_request = next_seq reg;
        inner = Map.insert reg.next_id entry reg.inner;
      },
      handle,
    )

-- The marker is drawn whether the watch is there or not.
abbrev with_entry : WatchRegistry → ℕ → (WatchEntry → WatchEntry) → WatchRegistry
with_entry reg id f = record reg { next_request = next_seq reg; inner = Map.update id f reg.inner }

unfoldable pub touch : WatchRegistry → ℕ → ℕ → WatchRegistry
touch reg id now =
    with_entry reg id (λ e. record e { last_touch = now; request_seq = next_seq reg })

unfoldable pub pin : WatchRegistry → ℕ → ℕ → WatchRegistry
pin reg id now =
    with_entry reg id
      (λ e. record e { pinned = true; last_touch = now; request_seq = next_seq reg })

-- `if priority < e.handle.priority { e.handle.priority = priority }`
abbrev pub raise : WatchHandle → WatchPriority → WatchHandle
raise h priority =
    if ltb (rank priority) (rank h.priority) then record h { priority = priority } else h

unfoldable pub upgrade_priority : WatchRegistry → ℕ → WatchPriority → ℕ → WatchRegistry
upgrade_priority reg id priority now = with_entry reg id (λ e. record {
  handle = raise e.handle priority;
  pinned = true;
  last_touch = now;
  request_seq = next_seq reg;
})

unfoldable pub unregister : WatchRegistry → ℕ → WatchRegistry
unregister reg id = record reg { inner = Map.remove id reg.inner }

unfoldable pub clear : WatchRegistry → WatchRegistry
clear reg = record reg { inner = Map.empty }

unfoldable pub all : WatchRegistry → List WatchHandle
all reg = map (λ e. e.handle) (Map.values reg.inner)

-- `e.pinned || now.duration_since(e.last_touch) < window`; the difference stops at zero
abbrev pub is_active : ℕ → ℕ → WatchEntry → Bool
is_active window now e = e.pinned || ltb (now - e.last_touch) window

unfoldable pub active_with_requests : WatchRegistry → ℕ → ℕ → List (WatchHandle × ℕ)
active_with_requests reg window now =
    map (λ e. (e.handle, e.request_seq)) (retain (is_active window now) (Map.values reg.inner))

unfoldable pub active : WatchRegistry → ℕ → ℕ → List WatchHandle
unfolding active_with_requests
active reg window now = map (λ p. p.0) (active_with_requests reg window now)

unfoldable pub len : WatchRegistry → ℕ
len reg = length (Map.values reg.inner)

unfoldable pub active_len : WatchRegistry → ℕ → ℕ → ℕ
active_len reg window now = length (retain (is_active window now) (Map.values reg.inner))

unfoldable pub is_empty : WatchRegistry → Bool
is_empty reg = list_is_empty reg.inner
