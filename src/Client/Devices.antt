-- ===== src/Client/Devices.antt =====
-- The choice of a device.
use sni_lua.Client.{
  DeviceInfo, SniError, no_devices, Result, ok, err, position, is_fxpakpro, swap_remove,
  first_device,
}
use sni_lua.Common.{
  ℕ, zero, suc, ◌≡◌, sym, refl, Bool, true, false, List, [], ◌∷◌, Memᴰ, Option, none, some, any,
  get_elem?, Bool-cases, inl, inr, ◌⊎◌, arith,
}

-- what `position` and the index of what it finds amount to
data Found (p : DeviceInfo → Bool) (ds : List DeviceInfo) : Type 0 where
  nowhere : position p ds ≡ none → any p ds ≡ false → Found p ds
  somewhere :
      (i : ℕ) (d : DeviceInfo)
      → position p ds ≡ some i
      → get_elem? ds i ≡ some d
      → p d ≡ true
      → Found p ds

found : (p : DeviceInfo → Bool) (ds : List DeviceInfo) → Found p ds
unfolding position
found p [] = nowhere refl refl
found p (d ∷ ds) = elim (Bool-cases (p d)) [
  | inl e ↦ somewhere 0 d (rw e refl) refl e
  | inr e ↦ elim (found p ds) [
    | nowhere q a ↦ nowhere (rw (e, q) refl) (rw e a)
    | somewhere i x q g y ↦ somewhere (suc i) x (rw (e, q) refl) g y
  ]
]

Memᴰ-get_elem? :
    (ds : List DeviceInfo) (i : ℕ) (d : DeviceInfo) → get_elem? ds i ≡ some d → Memᴰ d ds
Memᴰ-get_elem? [] i d h = ground (arith, h)
Memᴰ-get_elem? (x ∷ ds) zero d h = Memᴰ.head (some_injective (sym h))
  where
    some_injective : {a b : DeviceInfo} → Path (Option DeviceInfo) (some a) (some b) → a ≡ b
    some_injective q = ground (arith, q)
Memᴰ-get_elem? (x ∷ ds) (suc i) d h = Memᴰ.tail (Memᴰ-get_elem? ds i d h)

-- Of a list that is not empty the choice is a device of that list, with no index out of range, and
-- an fxpakpro if the list has one; an empty list and a failed call are errors.
pub first_device-chooses :
    (answer : Result (List DeviceInfo))
    → ((e : SniError) × (answer ≡ err e) × (first_device answer ≡ some (err e)))
      ⊎ (((answer ≡ ok []) × (first_device answer ≡ some (err no_devices)))
          ⊎ ((ds : List DeviceInfo) × (d : DeviceInfo) × (answer ≡ ok ds)
              × (first_device answer ≡ some (ok d))
              × Memᴰ d ds
              × ((is_fxpakpro d ≡ true) ⊎ (any is_fxpakpro ds ≡ false))))
unfolding first_device
first_device-chooses (err e) = inl (e, refl, refl)
first_device-chooses (ok []) = inr (inl (refl, refl))
first_device-chooses (ok (d ∷ ds)) = elim (found is_fxpakpro (d ∷ ds)) [
  | nowhere q a ↦ inr (inr (d ∷ ds, d, refl, rw (first_device, q) refl, Memᴰ.head refl, inr a))
  | somewhere i x q g y ↦ inr (
      inr (
        d ∷ ds,
        x,
        refl,
        rw (first_device, q) (rw (swap_remove, g) refl),
        Memᴰ-get_elem? (d ∷ ds) i x g,
        inl y,
      ))
]
