-- ===== src/Host/Polled.antt =====
-- What a script's calls make the engine poll.
use sni_lua.Client.{wram}
use sni_lua.Common.Map
use sni_lua.Common.Map.{get→Memᴰ, get-update}
use sni_lua.Common.{
  ℕ, ◌+◌, ◌<◌, ◌≡◌, refl, Option, some, none, Str, Memᴰ, Memᴰ-map, Memᴰ-retain, arith, ==_refl,
  false,
}
use sni_lua.Host.Calls.{priority_of, reader, watch, watch_region}
use sni_lua.Snapshot.{Snapshot}
use sni_lua.Watch.Registry.Invariant.{IsValid, register-fresh}
use sni_lua.Watch.Registry.{
  WatchEntry, WatchRegistry, active_with_requests, is_active, next_seq, touch,
}
use sni_lua.Watch.{WatchHandle}

-- the watch that a script gets for an offset into WRAM
abbrev pub watched : WatchRegistry → ℕ → ℕ → Option Str → ℕ → WatchHandle
watched reg offset size prio now = record {
  id = (watch reg offset size prio now).1;
  region = wram offset size;
  priority = priority_of prio;
}

-- A script that registers a watch on WRAM gets an id that no watch of the registry has. If it next
-- reads the watch, by whichever of the reading calls, the engine polls that address and size, at the
-- priority that the script named, at every instant before the window after the read has passed, with
-- the marker that follows the registration's; from a valid registry, with a window that is not empty.
pub reader-watch-polled :
    {A : Type 0} (method : Snapshot → ℕ → Option A) (snap : Snapshot) (reg : WatchRegistry)
    (offset size : ℕ) (prio : Option Str) (now later window t : ℕ)
    → IsValid reg
    → 0 < window
    → t < later + window
    → let (after, id) = watch reg offset size prio now in
      (Map.get id reg.inner ≡ none)
      × Memᴰ
          (watched reg offset size prio now, next_seq after)
          (active_with_requests (reader method after snap id later).0 window t)
unfolding reader watch watch_region touch active_with_requests
reader-watch-polled method snap reg offset size prio now later window t v h k =
    let (absent, stored, _) = register-fresh reg (wram offset size) (priority_of prio) now v in
    let after = (watch reg offset size prio now).0 in
    let id = (watch reg offset size prio now).1 in
    let e : WatchEntry = record {
      handle = watched reg offset size prio now;
      last_touch = later;
      request_seq = next_seq after;
      pinned = false;
    } in
    let read : Map.get id (touch after id later).inner ≡ some e =
      rw (get-update, stored, ==_refl reg.next_id) refl in
    (
      absent,
      Memᴰ-map (λ (x : WatchEntry). (x.handle, x.request_seq)) e _
          (Memᴰ-retain (is_active window t) e _ (ground arith)
            (get→Memᴰ id (touch after id later).inner e read)),
    )
