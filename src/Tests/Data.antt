-- ===== src/Tests/Data.antt =====
-- Two bulk watches a gap apart, one realtime watch, a registry that holds them, and a console.
use sni_lua.Client.{fx_pak_pro, unknown, MemRegion}
use sni_lua.Common.Float.{Float}
use sni_lua.Common.{
  ℕ, ◌+◌, ◌-◌, ◌*◌, ◌/◌, true, false, List, [], ◌∷◌, if◌then◌else◌, ltb, ◌==◌, min, max, u32_max,
  All, arith, refl,
}
use sni_lua.Engine.Apply.Fresh.{Distinct}
use sni_lua.Engine.Apply.Slices.{Memory}
use sni_lua.Watch.Registry.Invariant.{IsValid, HasRoom}
use sni_lua.Watch.Registry.{WatchEntry, WatchRegistry}
use sni_lua.Watch.{realtime, high, low, WatchHandle, InRange}

abbrev pub at : ℕ → ℕ → MemRegion
at address size = record { address = address; size = size; space = fx_pak_pro; mapping = unknown }

abbrev pub health : WatchHandle
health = record { id = 0; region = at 0x100 2; priority = high }

abbrev pub room : WatchHandle
room = record { id = 1; region = at 0x106 4; priority = low }

abbrev pub pad : WatchHandle
pad = record { id = 2; region = at 0x8B 2; priority = realtime }

abbrev pub two : List WatchHandle
two = room ∷ health ∷ []

abbrev pub two_in_range : All (λ v. InRange v.region) two
two_in_range = (record { fits = omega arith }, (record { fits = omega arith }, tt))

abbrev pub two_distinct : Distinct two
two_distinct = ((refl, tt), (tt, tt))

abbrev pub health_entry : WatchEntry
health_entry = record { handle = health; last_touch = 10; request_seq = 4; pinned = false }

abbrev pub room_entry : WatchEntry
room_entry = record { handle = room; last_touch = 90; request_seq = 5; pinned = false }

abbrev pub pad_entry : WatchEntry
pad_entry = record { handle = pad; last_touch = 20; request_seq = 3; pinned = true }

abbrev pub registry : WatchRegistry
registry = record {
  next_id = 3;
  next_request = 5;
  inner = (0, health_entry) ∷ (1, room_entry) ∷ (2, pad_entry) ∷ [];
}

abbrev pub registry-IsValid : IsValid registry
registry-IsValid = omega arith

abbrev pub registry-HasRoom : HasRoom 1 registry
registry-HasRoom = omega arith

-- memory that differs at every address
abbrev pub console : Memory
console space mapping a = a + 7

-- integers in place of floats
abbrev pub whole : Float
whole = record {
  F = ℕ;
  of_nat = λ n. n;
  lit = λ n d. n / d;
  add = ◌+◌;
  sub = ◌-◌;
  mul = ◌*◌;
  div = λ a b. if b == 0 then u32_max else a / b;
  min = min;
  max = max;
  floor = λ x. x;
  ceil = λ x. x;
  round = λ x. x;
  gt = λ a b. ltb b a;
  eq = ◌==◌;
  is_finite = λ x. true;
  trunc = λ x. x;
}
