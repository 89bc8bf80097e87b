-- ===== src/Client.antt =====
-- crates/sni-client/src/lib.rs: regions of memory, errors, and the choice of a device. The gRPC
-- calls themselves are generated code (`pb`) and stand as arguments where they are used.
pub mod Calls
pub mod Devices
pub mod Wire
use sni_lua.Common.{
  ℕ, suc, List, [], ◌∷◌, Option, none, some, Bool, Str, str, str_eq, ◌++◌, if◌then◌else◌, get_elem?,
  add32, map,
}

-- proto/sni.proto names the variants and their numbers
pub data AddressSpace : Type 0 where
  fx_pak_pro snes_a_bus raw : AddressSpace

pub data MemoryMapping : Type 0 where
  unknown hi_rom lo_rom ex_hi_rom sa1 : MemoryMapping

-- `space as i32`
abbrev pub space_i32 : AddressSpace → ℕ
space_i32 fx_pak_pro = 0
space_i32 snes_a_bus = 1
space_i32 raw = 2

-- `mapping as i32`
abbrev pub mapping_i32 : MemoryMapping → ℕ
mapping_i32 unknown = 0
mapping_i32 hi_rom = 1
mapping_i32 lo_rom = 2
mapping_i32 ex_hi_rom = 3
mapping_i32 sa1 = 4

pub record MemRegion : Type 0 where
  pub address : ℕ
  pub size : ℕ
  pub space : AddressSpace
  pub mapping : MemoryMapping

unfoldable pub fxpak : ℕ → ℕ → MemRegion
fxpak address size = record {
  address = address;
  size = size;
  space = fx_pak_pro;
  mapping = unknown;
}

unfoldable pub wram : ℕ → ℕ → MemRegion
unfolding fxpak
wram offset size = fxpak (add32 0xF5_0000 offset) size

pub record ReadMemoryRequest : Type 0 where
  pub request_address : ℕ
  pub request_address_space : ℕ
  pub request_memory_mapping : ℕ
  pub size : ℕ

unfoldable pub to_read_req : MemRegion → ReadMemoryRequest
to_read_req r = record {
  request_address = r.address;
  request_address_space = space_i32 r.space;
  request_memory_mapping = mapping_i32 r.mapping;
  size = r.size;
}

pub data SniError : Type 0 where
  transport status : Str → SniError
  no_devices : SniError
  device_not_found : Str → SniError
  empty_response : SniError

-- `Display`, as `thiserror` derives it
unfoldable pub display : SniError → Str
display (transport e) = str "transport: " ++ e
display (status e) = str "rpc: " ++ e
display no_devices = str "no devices connected to SNI"
display (device_not_found uri) = str "device `" ++ (uri ++ str "` not found")
display empty_response = str "response was missing the expected payload"

pub data Result {ℓ} (A : Type ℓ) : Type ℓ where
  ok : A → Result A
  err : SniError → Result A

infixl 5 ◌>>=◌
abbrev pub ◌>>=◌ {ℓ κ} : {A : Type ℓ} {B : Type κ} → Result A → (A → Result B) → Result B
ok a >>= f = f a
err e >>= f = err e

pub record DeviceInfo : Type 0 where
  pub uri : Str
  pub display_name : Str
  pub kind : Str
  pub capabilities : List ℕ
  pub default_space : AddressSpace

-- `position` of an iterator
unfoldable pub position : (DeviceInfo → Bool) → List DeviceInfo → Option ℕ
position p [] = none
position p (d ∷ ds) =
    let later : Option ℕ = elim (position p ds) [ none ↦ none | some i ↦ some (suc i) ] in
    if p d then some 0 else later

unfoldable pub is_fxpakpro : DeviceInfo → Bool
unfolding str_eq
is_fxpakpro d = str_eq d.kind (str "fxpakpro")

-- the device that `devices.swap_remove(i)` returns; out of range it panics, here `none`
abbrev pub swap_remove : List DeviceInfo → ℕ → Option (Result DeviceInfo)
swap_remove ds i = elim (get_elem? ds i) [ none ↦ none | some d ↦ some (ok d) ]

-- `first_device`, given what `list_devices` answered; `none` stands for a panic
unfoldable pub first_device : Result (List DeviceInfo) → Option (Result DeviceInfo)
unfolding position
first_device (err e) = some (err e)
first_device (ok []) = some (err no_devices)
first_device (ok (d ∷ ds)) = elim (position is_fxpakpro (d ∷ ds)) [
  | none ↦ swap_remove (d ∷ ds) 0
  | some i ↦ swap_remove (d ∷ ds) i
]

-- What `multi_read` does with the answer of the service: one blob for each response, in order.
unfoldable pub multi_read :
    (List ReadMemoryRequest → Result (List (List ℕ))) → List MemRegion → Result (List (List ℕ))
unfolding to_read_req
multi_read call regions = call (map to_read_req regions)
