-- ===== src/Engine/Apply/Slices.antt =====
-- Slices of a full reply are the memory at the member's own address.
use sni_lua.Client.{MemRegion, AddressSpace, MemoryMapping}
use sni_lua.Common.{
  ℕ, zero, suc, ◌+◌, ◌-◌, ◌≤◌, ◌≡◌, refl, ap, ap₂, ◌∙◌, List, [], ◌∷◌, arith, length, length-take,
  length-drop, take, drop,
}
use sni_lua.Engine.Apply.{slice}

-- the bytes from an address on
unfoldable pub bytes_from : (ℕ → ℕ) → ℕ → ℕ → List ℕ
bytes_from f a zero = []
bytes_from f a (suc n) = f a ∷ bytes_from f (suc a) n

-- The console's memory, by space, mapping and address.
abbrev pub Memory : Type 0
Memory = AddressSpace → MemoryMapping → ℕ → ℕ

abbrev pub peek : Memory → MemRegion → List ℕ
peek mem r = bytes_from (mem r.space r.mapping) r.address r.size

pub length-bytes_from : (f : ℕ → ℕ) (a n : ℕ) → length (bytes_from f a n) ≡ n
unfolding bytes_from
length-bytes_from f a zero = refl
length-bytes_from f a (suc n) = ap suc (length-bytes_from f (suc a) n)

take-bytes_from : (f : ℕ → ℕ) (a n k : ℕ) → k ≤ n → take k (bytes_from f a n) ≡ bytes_from f a k
unfolding bytes_from
take-bytes_from f a n zero h = refl
take-bytes_from f a zero (suc k) h = ground arith
take-bytes_from f a (suc n) (suc k) h =
    ap (λ l. f a ∷ l) (take-bytes_from f (suc a) n k (omega arith))

drop-bytes_from : (f : ℕ → ℕ) (a n k : ℕ) → drop k (bytes_from f a n) ≡ bytes_from f (a + k) (n - k)
unfolding bytes_from
drop-bytes_from f a n zero = ap₂ (bytes_from f) (omega arith) (omega arith)
drop-bytes_from f a zero (suc k) =
    let none_left : 0 ≡ 0 - suc k = omega arith in ap (bytes_from f (a + suc k)) none_left
drop-bytes_from f a (suc n) (suc k) =
    drop-bytes_from f (suc a) n k ∙ ap₂ (bytes_from f) (omega arith) (omega arith)

pub slice-bytes_from :
    (f : ℕ → ℕ) (a n o s : ℕ) → o + s ≤ n → slice o s (bytes_from f a n) ≡ bytes_from f (a + o) s
slice-bytes_from f a n o s h =
    ap (take s) (drop-bytes_from f a n o) ∙ take-bytes_from f (a + o) (n - o) s (omega arith)

pub length-slice : (o s : ℕ) (blob : List ℕ) → o + s ≤ length blob → length (slice o s blob) ≡ s
length-slice o s blob h = omega (arith, length-take s (drop o blob), length-drop o blob)
