-- ===== src/Snapshot.antt =====
-- crates/sni-cache/src/snapshot.rs: the published snapshot and its builder. A byte is a number
-- below 256.
pub mod Builder
pub mod Typed
use sni_lua.Client.{MemRegion}
use sni_lua.Common.Int.{ℤ, as_i8, as_i16, as_i32}
use sni_lua.Common.Map
use sni_lua.Common.Map.{Map}
use sni_lua.Common.{ℕ, ◌+◌, ◌*◌, Bool, List, [], ◌∷◌, Option, none, some, first, saturating_add32}

pub record Snapshot : Type 0 where
  -- `data` in the source
  pub bytes_of : Map (List ℕ)
  pub regions : Map MemRegion
  pub age_cycles : Map ℕ
  pub cycle : ℕ
  pub age_ms : ℕ
  pub last_rtt_ms : ℕ

unfoldable pub empty : Snapshot
empty = record {
  bytes_of = Map.empty;
  regions = Map.empty;
  age_cycles = Map.empty;
  cycle = 0;
  age_ms = 0;
  last_rtt_ms = 0;
}

unfoldable pub bytes : Snapshot → ℕ → Option (List ℕ)
bytes s id = Map.get id s.bytes_of

unfoldable pub region : Snapshot → ℕ → Option MemRegion
region s id = Map.get id s.regions

unfoldable pub watch_age : Snapshot → ℕ → Option ℕ
watch_age s id = Map.get id s.age_cycles

unfoldable pub has : Snapshot → ℕ → Bool
has s id = Map.contains_key id s.bytes_of

-- `from_le_bytes`
abbrev pub le2 : ℕ → ℕ → ℕ
le2 a b = a + 256 * b

abbrev pub le4 : ℕ → ℕ → ℕ → ℕ → ℕ
le4 a b c d = a + 256 * b + 65536 * c + 16777216 * d

-- A reader of a slice: the test of its length, and the bytes that it takes.
unfoldable pub read_u8 : List ℕ → Option ℕ
read_u8 = first

unfoldable pub read_u16 : List ℕ → Option ℕ
read_u16 (a ∷ b ∷ rest) = some (le2 a b)
read_u16 _ = none

unfoldable pub read_u24 : List ℕ → Option ℕ
read_u24 (a ∷ b ∷ c ∷ rest) = some (le4 a b c 0)
read_u24 _ = none

unfoldable pub read_u32 : List ℕ → Option ℕ
read_u32 (a ∷ b ∷ c ∷ d ∷ rest) = some (le4 a b c d)
read_u32 _ = none

-- `Option::and_then` and `Option::map`
abbrev pub and_then {ℓ κ} : {A : Type ℓ} {B : Type κ} → Option A → (A → Option B) → Option B
and_then none f = none
and_then (some a) f = f a

abbrev pub map_option {ℓ κ} : {A : Type ℓ} {B : Type κ} → Option A → (A → B) → Option B
map_option none f = none
map_option (some a) f = some (f a)

unfoldable pub u8 : Snapshot → ℕ → Option ℕ
unfolding bytes read_u8
u8 s id = and_then (bytes s id) read_u8

unfoldable pub u16 : Snapshot → ℕ → Option ℕ
unfolding bytes read_u16
u16 s id = and_then (bytes s id) read_u16

unfoldable pub u24 : Snapshot → ℕ → Option ℕ
unfolding bytes read_u24
u24 s id = and_then (bytes s id) read_u24

unfoldable pub u32 : Snapshot → ℕ → Option ℕ
unfolding bytes read_u32
u32 s id = and_then (bytes s id) read_u32

unfoldable pub i8 : Snapshot → ℕ → Option ℤ
unfolding u8
i8 s id = map_option (u8 s id) as_i8

unfoldable pub i16 : Snapshot → ℕ → Option ℤ
unfolding u16
i16 s id = map_option (u16 s id) as_i16

unfoldable pub i32 : Snapshot → ℕ → Option ℤ
unfolding u32
i32 s id = map_option (u32 s id) as_i32

pub record SnapshotBuilder : Type 0 where
  pub bytes_of : Map (List ℕ)
  pub regions : Map MemRegion
  pub age_cycles : Map ℕ

unfoldable pub from_prev : Snapshot → SnapshotBuilder
from_prev prev = record {
  bytes_of = prev.bytes_of;
  regions = prev.regions;
  age_cycles = Map.map_values (λ v. saturating_add32 v 1) prev.age_cycles;
}

unfoldable pub set : SnapshotBuilder → ℕ → MemRegion → List ℕ → SnapshotBuilder
set b id region bytes = record {
  bytes_of = Map.insert id bytes b.bytes_of;
  regions = Map.insert id region b.regions;
  age_cycles = Map.insert id 0 b.age_cycles;
}

-- `live` is a set of ids, given by its membership test
unfoldable pub retain_only : SnapshotBuilder → (ℕ → Bool) → SnapshotBuilder
retain_only b live = record {
  bytes_of = Map.retain_keys live b.bytes_of;
  regions = Map.retain_keys live b.regions;
  age_cycles = Map.retain_keys live b.age_cycles;
}

unfoldable pub build : SnapshotBuilder → ℕ → ℕ → ℕ → Snapshot
build b cycle age_ms last_rtt_ms = record {
  bytes_of = b.bytes_of;
  regions = b.regions;
  age_cycles = b.age_cycles;
  cycle = cycle;
  age_ms = age_ms;
  last_rtt_ms = last_rtt_ms;
}
