-- ===== src/Host/Calls.antt =====
-- The calls of the `snes` table that register watches and read them. What a call returns to the
-- script stands beside the registry that it leaves; `nil` is `none`, and `now` is the clock.
use sni_lua.Client.{MemRegion, fxpak, wram}
use sni_lua.Common.{ℕ, ◌/◌, ◌%◌, ◌^◌, Bool, List, Option, none, some, ◌==◌, Str}
use sni_lua.Snapshot.{Snapshot, bytes, u16, watch_age}
use sni_lua.Watch.Registry.{WatchRegistry, register, touch, upgrade_priority}
use sni_lua.Watch.{WatchPriority, normal, parse}

-- `prio.map(WatchPriority::parse).unwrap_or(WatchPriority::Normal)`
unfoldable pub priority_of : Option Str → WatchPriority
unfolding parse
priority_of none = normal
priority_of (some name) = parse name

-- with the new watch's id
unfoldable pub watch_region : WatchRegistry → MemRegion → Option Str → ℕ → WatchRegistry × ℕ
unfolding register priority_of
watch_region reg region prio now =
    let (after, handle) = register reg region (priority_of prio) now in (after, handle.id)

unfoldable pub watch : WatchRegistry → ℕ → ℕ → Option Str → ℕ → WatchRegistry × ℕ
unfolding watch_region wram
watch reg offset size prio now = watch_region reg (wram offset size) prio now

unfoldable pub watch_abs : WatchRegistry → ℕ → ℕ → Option Str → ℕ → WatchRegistry × ℕ
unfolding watch_region fxpak
watch_abs reg addr size prio now = watch_region reg (fxpak addr size) prio now

unfoldable pub tier : WatchRegistry → ℕ → Str → ℕ → WatchRegistry
unfolding upgrade_priority parse
tier reg id class now = upgrade_priority reg id (parse class) now

-- Each read of a watch touches it, then reads the snapshot by `method`.
unfoldable pub reader :
    {A : Type 0}
    → (Snapshot → ℕ → Option A)
    → WatchRegistry
    → Snapshot
    → ℕ
    → ℕ
    → WatchRegistry × Option A
unfolding touch
reader method reg snap id now = (touch reg id now, method snap id)

unfoldable pub read_bytes : WatchRegistry → Snapshot → ℕ → ℕ → WatchRegistry × Option (List ℕ)
unfolding reader bytes
read_bytes = reader bytes

unfoldable pub age : WatchRegistry → Snapshot → ℕ → ℕ → WatchRegistry × Option ℕ
unfolding reader watch_age
age = reader watch_age

-- the fields that `snes.buttons` sets
pub record Buttons : Type 0 where
  pub b : Bool
  pub y : Bool
  pub select : Bool
  pub start : Bool
  pub up : Bool
  pub down : Bool
  pub left : Bool
  pub right : Bool
  pub a : Bool
  pub x : Bool
  pub l : Bool
  pub r : Bool
  pub raw : ℕ

abbrev pub bit : ℕ → ℕ → Bool
bit v n = (v / 2 ^ n) % 2 == 1

-- the registry after the read, and the buttons
unfoldable pub buttons : WatchRegistry → Snapshot → ℕ → ℕ → WatchRegistry × Option Buttons
unfolding reader u16
buttons reg snap id now =
    let (after, v) = reader u16 reg snap id now in
    (
      after,
      elim v [
        | none ↦ none
        | some v ↦ some (record {
          b = bit v 15;
          y = bit v 14;
          select = bit v 13;
          start = bit v 12;
          up = bit v 11;
          down = bit v 10;
          left = bit v 9;
          right = bit v 8;
          a = bit v 7;
          x = bit v 6;
          l = bit v 5;
          r = bit v 4;
          raw = v;
        })
      ],
    )
