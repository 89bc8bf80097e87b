-- ===== src/Client/Calls.antt =====
-- crates/sni-client/src/lib.rs: the calls of the service, apart from the batched read. The generated
-- client is an argument of each; an i32 of the wire is the natural number with its 32 bits.
use sni_lua.Client.{
  AddressSpace, fx_pak_pro, snes_a_bus, raw, MemoryMapping, unknown, hi_rom, lo_rom, ex_hi_rom, sa1,
  space_i32, mapping_i32, MemRegion, ReadMemoryRequest, to_read_req, Result, ok, err, ◌>>=◌,
  empty_response, DeviceInfo,
}
use sni_lua.Common.{
  ℕ, List, Option, none, some, Bool, true, Str, str, ◌++◌, map, if◌then◌else◌, ◌==◌,
}

-- `DEFAULT_GRPC_PORT`, as it is printed
abbrev pub default_grpc_port : Str
default_grpc_port = str "8191"

-- what is set on an endpoint before it is dialled, times in seconds
pub record Endpoint : Type 0 where
  pub addr : Str
  pub connect_timeout : ℕ
  pub tcp_nodelay : Bool
  pub http2_keep_alive_interval : ℕ

-- `connect`: `from_shared` refuses an address that is no URI, and `dial` may fail
unfoldable pub connect :
    {Channel : Type 0}
    → (from_shared : Str → Result Str) → (dial : Endpoint → Result Channel) → Str
    → Result Channel
connect from_shared dial addr = from_shared addr >>= λ uri.
    dial
      record { addr = uri; connect_timeout = 5; tcp_nodelay = true; http2_keep_alive_interval = 15 }

unfoldable pub connect_local :
    {Channel : Type 0} → (Str → Result Str) → (Endpoint → Result Channel) → Result Channel
unfolding connect
connect_local from_shared dial =
    connect from_shared dial (str "http://127.0.0.1:" ++ default_grpc_port)

-- `AddressSpace::try_from` of a number
unfoldable pub space_from : ℕ → Option AddressSpace
space_from n =
    if n == 0
    then some fx_pak_pro
    else if n == 1
    then some snes_a_bus
    else if n == 2
    then some raw
    else none

-- `MemoryMapping::try_from` of a number
unfoldable pub mapping_from : ℕ → Option MemoryMapping
mapping_from n =
    if n == 0
    then some unknown
    else if n == 1
    then some hi_rom
    else if n == 2
    then some lo_rom
    else if n == 3
    then some ex_hi_rom
    else if n == 4
    then some sa1
    else none

abbrev unwrap_or : {A : Type 0} → A → Option A → A
unwrap_or d none = d
unwrap_or d (some x) = x

-- a device of the service's answer
pub record Listed : Type 0 where
  pub uri : Str
  pub display_name : Str
  pub kind : Str
  pub capabilities : List ℕ
  pub default_address_space : ℕ

unfoldable pub device_info : Listed → DeviceInfo
unfolding space_from
device_info d = record {
  uri = d.uri;
  display_name = d.display_name;
  kind = d.kind;
  capabilities = d.capabilities;
  default_space = unwrap_or fx_pak_pro (space_from d.default_address_space);
}

unfoldable pub list_devices : Result (List Listed) → Result (List DeviceInfo)
unfolding device_info
list_devices answer = answer >>= λ ds. ok (map device_info ds)

-- `single_read`: the service may answer without a response
unfoldable pub single_read :
    (Str → ReadMemoryRequest → Result (Option (List ℕ))) → Str → MemRegion → Result (List ℕ)
unfolding to_read_req
single_read call uri region = call uri (to_read_req region) >>= payload
  where
    payload : Option (List ℕ) → Result (List ℕ)
    payload none = err empty_response
    payload (some data_) = ok data_

pub record WriteMemoryRequest : Type 0 where
  pub request_address : ℕ
  pub request_address_space : ℕ
  pub request_memory_mapping : ℕ
  pub content : List ℕ

unfoldable pub single_write :
    (Str → WriteMemoryRequest → Result {0} Unit) → Str → MemRegion → List ℕ → Result {0} Unit
single_write call uri region bytes =
    call uri record {
      request_address = region.address;
      request_address_space = space_i32 region.space;
      request_memory_mapping = mapping_i32 region.mapping;
      content = bytes;
    }
    >>= λ _. ok tt

-- `detect_mapping`; the call is given the fallback mapping of the request
unfoldable pub detect_mapping : (Str → ℕ → Result ℕ) → Str → Result MemoryMapping
unfolding mapping_from
detect_mapping call uri =
    call uri (mapping_i32 lo_rom) >>= λ n. ok (unwrap_or unknown (mapping_from n))
