-- ===== src/Tests/Watches.antt =====
-- The registry and the snapshot at concrete inputs.
use sni_lua.Common.Int.{as_i32, as_u32}
use sni_lua.Common.Map
use sni_lua.Common.{ℕ, ◌<◌, ◌≡◌, refl, List, [], ◌∷◌, some, Memᴰ, ◌==◌, arith}
use sni_lua.Snapshot.Builder.{cell_of, older, carry_forward}
use sni_lua.Snapshot.Typed.{le_bytes, typed-le_bytes}
use sni_lua.Snapshot.{Snapshot, from_prev, retain_only, build, bytes, u8, u16, u24, u32, i32}
use sni_lua.Tests.Data.{
  at, health, health_entry, room_entry, registry, registry-IsValid, registry-HasRoom,
}
use sni_lua.Watch.Registry.Demand.{touch-polled}
use sni_lua.Watch.Registry.Invariant.{
  IsValid, Op, registers, touches, pins, unregisters, run, run-IsValid,
}
use sni_lua.Watch.Registry.{new, touch, active_with_requests}
use sni_lua.Watch.{high}

abbrev calls : List (ℕ × Op)
calls = (1, registers (at 0x100 2) high) ∷ (2, touches 0) ∷ (3, pins 0) ∷ (4, unregisters 0) ∷ []

run-IsValid_example : IsValid (run new calls)
run-IsValid_example = run-IsValid calls (omega arith)

touch-polled_example :
    Memᴰ
      (health, (touch registry 0 100).next_request)
      (active_with_requests (touch registry 0 100) 30 100)
    × (5 < (touch registry 0 100).next_request)
unfolding Map.get
touch-polled_example =
    touch-polled registry 0 100 health_entry registry-IsValid registry-HasRoom refl 30 1 room_entry
      (omega arith) refl

abbrev two_bytes : Snapshot
two_bytes = record {
  bytes_of = (0, le_bytes 0xFFFE) ∷ [];
  regions = (0, at 0x100 4) ∷ [];
  age_cycles = (0, 3) ∷ [];
  cycle = 9;
  age_ms = 1;
  last_rtt_ms = 1;
}

carry_forward_example :
    cell_of (build (retain_only (from_prev two_bytes) (λ id. id == 0)) 10 2 2) 0
    ≡ older (cell_of two_bytes 0)
carry_forward_example = carry_forward two_bytes (λ id. id == 0) 10 2 2 0

typed-le_bytes_example :
    (u32 two_bytes 0 ≡ some 0xFFFE)
    × (u24 two_bytes 0 ≡ some 0xFFFE)
    × (u16 two_bytes 0 ≡ some 0xFFFE)
    × (u8 two_bytes 0 ≡ some 0xFE)
    × (i32 two_bytes 0 ≡ some (as_i32 0xFFFE))
    × (as_u32 (as_i32 0xFFFE) ≡ 0xFFFE)
unfolding bytes Map.get
typed-le_bytes_example = typed-le_bytes two_bytes 0 0xFFFE [] (omega arith) refl
