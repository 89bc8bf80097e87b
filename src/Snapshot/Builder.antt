-- ===== src/Snapshot/Builder.antt =====
-- What a poll cycle makes of the previous snapshot, watch by watch.
use sni_lua.Client.{MemRegion}
use sni_lua.Common.Map
use sni_lua.Common.Map.{Map, get-insert, get-retain_keys, get-map_values}
use sni_lua.Common.{
  ℕ, ◌≡◌, refl, ap, ◌∙◌, Bool, List, Option, none, some, arith, if◌then◌else◌, ◌==◌,
  saturating_add32,
}
use sni_lua.Snapshot.{Snapshot, SnapshotBuilder, from_prev, set, retain_only, build}

-- What a snapshot, or a builder, knows of one watch: its bytes, its region and its age.
pub record Cell : Type 0 where
  pub bytes : Option (List ℕ)
  pub region : Option MemRegion
  pub age : Option ℕ

abbrev pub cell_of : Snapshot → ℕ → Cell
cell_of s id = record {
  bytes = Map.get id s.bytes_of;
  region = Map.get id s.regions;
  age = Map.get id s.age_cycles;
}

abbrev pub built : SnapshotBuilder → ℕ → Cell
built b id = record {
  bytes = Map.get id b.bytes_of;
  region = Map.get id b.regions;
  age = Map.get id b.age_cycles;
}

abbrev pub unread : Cell
unread = record { bytes = none; region = none; age = none }

abbrev pub fresh : MemRegion → List ℕ → Cell
fresh r bs = record { bytes = some bs; region = some r; age = some 0 }

-- one cycle older
abbrev pub older : Cell → Cell
older c = record c { age = elim c.age [ none ↦ none | some n ↦ some (saturating_add32 n 1) ] }

pub built-from_prev : (s : Snapshot) (id : ℕ) → built (from_prev s) id ≡ older (cell_of s id)
unfolding from_prev
built-from_prev s id = ground (arith, get-map_values (λ v. saturating_add32 v 1) id s.age_cycles)

pub built-set :
    (b : SnapshotBuilder) (id j : ℕ) (r : MemRegion) (bs : List ℕ)
    → built (set b id r bs) j ≡ (if id == j then fresh r bs else built b j)
unfolding set
built-set b id j r bs = ground (
  arith,
  get-insert id j bs b.bytes_of,
  get-insert id j r b.regions,
  get-insert id j 0 b.age_cycles,
)

pub built-retain_only :
    (b : SnapshotBuilder) (live : ℕ → Bool) (j : ℕ)
    → built (retain_only b live) j ≡ (if live j then built b j else unread)
unfolding retain_only
built-retain_only b live j = ground (
  arith,
  get-retain_keys live j b.bytes_of,
  get-retain_keys live j b.regions,
  get-retain_keys live j b.age_cycles,
)

pub cell_of-build :
    (b : SnapshotBuilder) (cycle age rtt id : ℕ) → cell_of (build b cycle age rtt) id ≡ built b id
unfolding build
cell_of-build b cycle age rtt id = refl

-- A watch has bytes, a region and an age, or none of the three.
pub data IsWhole (c : Cell) : Type 0 where
  absent : c ≡ unread → IsWhole c
  present :
      (bs : List ℕ) (r : MemRegion) (n : ℕ)
      → c ≡ record { bytes = some bs; region = some r; age = some n }
      → IsWhole c

pub older-IsWhole : (c : Cell) → IsWhole c → IsWhole (older c)
older-IsWhole c (absent e) = absent (ap older e)
older-IsWhole c (present bs r n e) = present bs r (saturating_add32 n 1) (ap older e)

-- Seeding, dropping the dead watches and publishing: a live watch keeps its bytes and its region
-- and is one cycle older, at most 2 ^ 32 - 1; a dead one is gone.
pub carry_forward :
    (prev : Snapshot) (live : ℕ → Bool) (cycle age rtt id : ℕ)
    → cell_of (build (retain_only (from_prev prev) live) cycle age rtt) id
      ≡ (if live id then older (cell_of prev id) else unread)
carry_forward prev live cycle age rtt id =
    cell_of-build _ cycle age rtt id
    ∙ built-retain_only (from_prev prev) live id
    ∙ rw (built-from_prev prev id)
