-- ===== src/Host/Writes.antt =====
-- What `snes.write` sends, read back as a number and by the typed reads of a snapshot.
use sni_lua.Client.{fxpak}
use sni_lua.Common.Int.{ℤ, as_u32}
use sni_lua.Common.{
  ℕ, zero, suc, ◌+◌, ◌*◌, ◌%◌, ◌^◌, ◌≤◌, ◌<◌, ◌≡◌, refl, sym, List, [], ◌∷◌, Option, none, some,
  length, arith, ◌⊎◌, inl, inr,
}
use sni_lua.Host.{bytes_of, write, written_size}

-- the number whose bytes these are, the low byte first
unfoldable pub from_le_bytes : List ℕ → ℕ
from_le_bytes [] = 0
from_le_bytes (b ∷ bs) = b + 256 * from_le_bytes bs

length-bytes_of : (size i v : ℕ) → length (bytes_of size i v) ≡ size
unfolding bytes_of
length-bytes_of zero i v = refl
length-bytes_of (suc size) i v = omega (arith, length-bytes_of size (suc i) v)

-- the sizes that a write can have
sizes : (n : ℕ) → 1 ≤ n → n ≤ 4 → (n ≡ 1) ⊎ (n ≡ 2) ⊎ (n ≡ 3) ⊎ (n ≡ 4)
sizes n h₁ h₂ = grind arith

from_le_bytes-bytes_of :
    (n v : ℕ) → 1 ≤ n → n ≤ 4 → from_le_bytes (bytes_of n 0 v) ≡ v % 2 ^ (8 * n)
unfolding from_le_bytes bytes_of
from_le_bytes-bytes_of n v h₁ h₂ = elim (sizes n h₁ h₂) [
  | inl e ↦ rw e (omega arith)
  | inr (inl e) ↦ rw e (omega arith)
  | inr (inr (inl e)) ↦ rw e (omega arith)
  | inr (inr (inr e)) ↦ rw e (omega arith)
]

-- the size nearest to the one asked for among 1 to 4, and 1 if none is asked for
pub data SentSize (n : ℕ) : Option ℕ → Type 0 where
  unasked : n ≡ 1 → SentSize n none
  asked : {s : ℕ} → 1 ≤ s → s ≤ 4 → n ≡ s → SentSize n (some s)
  too_small : {s : ℕ} → s < 1 → n ≡ 1 → SentSize n (some s)
  too_large : {s : ℕ} → 4 < s → n ≡ 4 → SentSize n (some s)

compare_cases : (s : ℕ) → (s < 1) ⊎ (4 < s) ⊎ ((1 ≤ s) × (s ≤ 4))
compare_cases s = grind arith

SentSize-written_size : (size : Option ℕ) (n : ℕ) → n ≡ written_size size → SentSize n size
SentSize-written_size none n e = unasked e
SentSize-written_size (some s) n e = elim (compare_cases s) [
  | inl h ↦ too_small h (omega (arith, e, h))
  | inr (inl h) ↦ too_large h (omega (arith, e, h))
  | inr (inr h) ↦ asked h.0 h.1 (omega (arith, e, h.0, h.1))
]

written_size-bounds : (size : Option ℕ) → (1 ≤ written_size size) × (written_size size ≤ 4)
written_size-bounds none = (omega arith, omega arith)
written_size-bounds (some size) = (omega arith, omega arith)

-- A write sends as many bytes as the region it names: as many as the script asked for if that is from
-- 1 to 4, one if it asked for none or left the size out, four if it asked for more; read low byte first they are the value's low bits, for every
-- value, negative or too large for the size, and for every size that the script gives or leaves out.
pub write-from_le_bytes :
    (addr : ℕ) (value : ℤ) (size : Option ℕ)
    → ((write addr value size).0.address ≡ addr)
      × ((write addr value size).0.size ≡ length (write addr value size).1)
      × SentSize (length (write addr value size).1) size
      × (from_le_bytes (write addr value size).1
          ≡ as_u32 value % 2 ^ (8 * length (write addr value size).1))
unfolding write fxpak
write-from_le_bytes addr value size =
    let n = written_size size in
    let (low, high) = written_size-bounds size in
    let len : length (bytes_of n 0 (as_u32 value)) ≡ n = length-bytes_of n 0 (as_u32 value) in
    (
      refl,
      sym len,
      SentSize-written_size size (length (bytes_of n 0 (as_u32 value))) len,
      rw len (from_le_bytes-bytes_of n (as_u32 value) low high),
    )
