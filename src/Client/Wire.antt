-- ===== src/Client/Wire.antt =====
-- What the calls of the client put on the wire and read from it.
use sni_lua.Client.{
  AddressSpace, fx_pak_pro, snes_a_bus, raw, MemoryMapping, unknown, hi_rom, lo_rom, ex_hi_rom, sa1,
  space_i32, mapping_i32, MemRegion, ReadMemoryRequest, to_read_req, ok,
}
use sni_lua.Client.Calls.{space_from, mapping_from, single_read, detect_mapping}
use sni_lua.Common.{ℕ, List, Option, none, some, Str, ◌≡◌, refl, sym, ap, ◌∙◌, some_injective}

-- The number of an address space on the wire is read back as that space.
pub space_from-space_i32 : (s : AddressSpace) → space_from (space_i32 s) ≡ some s
unfolding space_from
space_from-space_i32 fx_pak_pro = refl
space_from-space_i32 snes_a_bus = refl
space_from-space_i32 raw = refl

-- The number of a mapping on the wire is read back as that mapping.
pub mapping_from-mapping_i32 : (m : MemoryMapping) → mapping_from (mapping_i32 m) ≡ some m
unfolding mapping_from
mapping_from-mapping_i32 unknown = refl
mapping_from-mapping_i32 hi_rom = refl
mapping_from-mapping_i32 lo_rom = refl
mapping_from-mapping_i32 ex_hi_rom = refl
mapping_from-mapping_i32 sa1 = refl

-- the region that a service reads out of a request
unfoldable pub region_of : ReadMemoryRequest → Option MemRegion
region_of q = elim (space_from q.request_address_space) [
  | none ↦ none
  | some s ↦ elim (mapping_from q.request_memory_mapping) [
    | none ↦ none
    | some m ↦ some record { address = q.request_address; size = q.size; space = s; mapping = m }
  ]
]

-- A service that reads the request back gets the region, so that no two regions share a request.
pub region_of-to_read_req : (r : MemRegion) → region_of (to_read_req r) ≡ some r
unfolding to_read_req region_of
region_of-to_read_req r =
    rw (region_of, space_from-space_i32 r.space, mapping_from-mapping_i32 r.mapping) refl

-- A service that reads the request back and answers with what stands in that region gives a single
-- read just that.
pub single_read-served :
    (serve : MemRegion → List ℕ) (uri : Str) (r : MemRegion)
    → single_read (λ _ q. ok (elim (region_of q) [ none ↦ none | some x ↦ some (serve x) ])) uri r
      ≡ ok (serve r)
unfolding single_read
single_read-served serve uri r = rw (single_read, region_of-to_read_req r) refl

-- Two regions with the same request are the same.
pub to_read_req-injective : (r s : MemRegion) → to_read_req r ≡ to_read_req s → r ≡ s
to_read_req-injective r s h =
    some_injective (sym (region_of-to_read_req r) ∙ ap region_of h ∙ region_of-to_read_req s)

-- A mapping that the service names is the mapping detected.
pub detect_mapping-named :
    (uri : Str) (m : MemoryMapping) → detect_mapping (λ _ _. ok (mapping_i32 m)) uri ≡ ok m
unfolding detect_mapping
detect_mapping-named uri m = rw (mapping_from-mapping_i32 m) refl
