-- ===== src/Snapshot/Typed.antt =====
-- The typed reads of a snapshot.
use sni_lua.Common.Int.{as_i32, as_u32}
use sni_lua.Common.{ℕ, ◌/◌, ◌%◌, ◌^◌, ◌<◌, ◌≡◌, refl, ap, List, [], ◌∷◌, ◌++◌, some, u32_mod, arith}
use sni_lua.Snapshot.{
  Snapshot, bytes, u8, u16, u24, u32, i32, read_u8, read_u16, read_u24, read_u32, le2, le4,
}

-- the bytes of a 32-bit number, low byte first
abbrev pub le_bytes : ℕ → List ℕ
le_bytes n = n % 256 ∷ (n / 256) % 256 ∷ (n / 65536) % 256 ∷ (n / 16777216) % 256 ∷ []

-- A number of 32 bits that stands low byte first in a watch's bytes is read back by `u32`, its low
-- parts by the narrower reads, and `i32` reads the integer that has its bit pattern.
pub typed-le_bytes :
    (s : Snapshot) (id n : ℕ) (rest : List ℕ)
    → n < u32_mod
    → bytes s id ≡ some (le_bytes n ++ rest)
    → (u32 s id ≡ some n)
      × (u24 s id ≡ some (n % 2 ^ 24))
      × (u16 s id ≡ some (n % 2 ^ 16))
      × (u8 s id ≡ some (n % 2 ^ 8))
      × (i32 s id ≡ some (as_i32 n))
      × (as_u32 (as_i32 n) ≡ n)
unfolding u32 u24 u16 u8 i32 read_u32 read_u24 read_u16 read_u8
typed-le_bytes s id n rest h e =
    let four : le4 (n % 256) ((n / 256) % 256) ((n / 65536) % 256) ((n / 16777216) % 256) ≡ n =
      omega arith in
    let three : le4 (n % 256) ((n / 256) % 256) ((n / 65536) % 256) 0 ≡ n % 2 ^ 24 = omega arith in
    let two : le2 (n % 256) ((n / 256) % 256) ≡ n % 2 ^ 16 = omega arith in
    (
      rw (u32, e) (ap some four),
      rw (u24, e) (ap some three),
      rw (u16, e) (ap some two),
      rw (u8, e) refl,
      rw (i32, u32, e) (ap (λ x. some (as_i32 x)) four),
      ground arith,
    )
