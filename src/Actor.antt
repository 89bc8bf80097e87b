-- ===== src/Actor.antt =====
-- crates/sni-lua-app/src/sni_actor.rs: the actor that owns the connection. A client is an
-- uninterpreted handle; what the service answers to one command is an `Answers`.
pub mod Slot
use sni_lua.Client.{SniError, Result, ok, err, display, DeviceInfo, MemRegion, MemoryMapping}
use sni_lua.Common.{
  ℕ, Bool, true, false, List, [], ◌∷◌, ◌++◌, Option, none, some, any, first, if◌then◌else◌, Str,
  str, str_eq,
}

pub data ConnState : Type 0 where
  disconnected connecting connected : ConnState
  error : Str → ConnState

pub record ProbeResult : Type 0 where
  pub region : Option MemRegion
  pub bytes : List ℕ
  pub error : Option Str
  pub rtt_ms : ℕ

abbrev pub no_probe : ProbeResult
no_probe = record { region = none; bytes = []; error = none; rtt_ms = 0 }

pub record SniState : Type 0 where
  pub conn : ConnState
  pub devices : List DeviceInfo
  pub selected_uri : Option Str
  pub mapping : Option MemoryMapping
  pub last_probe : ProbeResult

-- `SniState::default()`
abbrev pub no_state : SniState
no_state = record {
  conn = disconnected;
  devices = [];
  selected_uri = none;
  mapping = none;
  last_probe = no_probe;
}

pub data Cmd : Type 0 where
  connect : Str → Cmd
  disconnect refresh_devices : Cmd
  select_device : Str → Cmd
  probe : MemRegion → Cmd
  write : MemRegion → List ℕ → Cmd

pub record Answers (C : Type 0) : Type 0 where
  pub connected : Result C
  pub listed : Result (List DeviceInfo)
  pub detected : Result MemoryMapping
  pub read : Result (List ℕ)
  pub rtt_ms : ℕ

-- the actor's fields; `written` is what has been sent to the service by `single_write`
pub record Actor (C : Type 0) : Type 0 where
  pub state : SniState
  pub client : Option C
  pub slot : Option (C × Str)
  pub written : List (C × Str × MemRegion × List ℕ)

abbrev pub with_mapping : Result MemoryMapping → SniState → SniState
with_mapping (ok m) s = record s { mapping = some m }
with_mapping (err e) s = s

-- `devices.iter().any(|d| &d.uri == u)`
unfoldable pub is_listed : List DeviceInfo → Str → Bool
unfolding str_eq
is_listed devices u = any (λ d. str_eq d.uri u) devices

-- the first device's uri
abbrev pub first_uri : List DeviceInfo → Option Str
first_uri [] = none
first_uri (d ∷ ds) = some d.uri

-- the selection that a new list leaves
unfoldable pub reselect : List DeviceInfo → Option Str → Option Str
unfolding is_listed
reselect devices none = first_uri devices
reselect devices (some u) = if is_listed devices u then some u else first_uri devices

unfoldable pub probe_result : MemRegion → ℕ → Result (List ℕ) → ProbeResult
unfolding display
probe_result region rtt_ms (ok bytes) = record {
  region = some region;
  bytes = bytes;
  error = none;
  rtt_ms = rtt_ms;
}
probe_result region rtt_ms (err e) = record {
  region = some region;
  bytes = [];
  error = some (display e);
  rtt_ms = rtt_ms;
}

module _ {C : Type 0} where
  -- `spawn`
  unfoldable pub start : Actor C
  start = record { state = no_state; client = none; slot = none; written = [] }

  unfoldable pub set_conn : ConnState → Actor C → Actor C
  set_conn conn a = record a { state = record a.state { conn = conn } }

  -- `match (client, uri)`
  abbrev pub both : Option C → Option Str → Option (C × Str)
  both none uri = none
  both (some c) none = none
  both (some c) (some u) = some (c, u)

  unfoldable pub republish_slot : Actor C → Actor C
  republish_slot a = record a { slot = both a.client a.state.selected_uri }

  unfoldable pub detect_mapping : Answers C → Actor C → Actor C
  detect_mapping ans a = record a {
    state = elim a.client [ none ↦ a.state | some c ↦ with_mapping ans.detected a.state ];
  }

  -- the `match` on the list
  unfoldable pub relist : Result (List DeviceInfo) → Actor C → Actor C
  unfolding reselect set_conn display
  relist (ok devices) a = record a {
    state = record a.state {
      selected_uri = reselect devices a.state.selected_uri;
      devices = devices;
    };
  }
  relist (err e) a = set_conn (error (str "list devices: " ++ display e)) a

  unfoldable pub refresh : Answers C → Actor C → Actor C
  unfolding relist detect_mapping republish_slot
  refresh ans a =
      let a' = relist ans.listed a in
      let detected : Actor C = elim a'.state.selected_uri [
        | none ↦ a'
        | some uri ↦ detect_mapping ans a'
      ] in
      elim a.client [ none ↦ a | some c ↦ republish_slot detected ]

  -- `connect`, after the answer
  unfoldable pub connect_to : Answers C → Result C → Actor C → Actor C
  unfolding set_conn refresh
  connect_to ans (ok c) a =
      refresh ans (set_conn connected (record (set_conn connecting a) { client = some c }))
  connect_to ans (err e) a = set_conn (error (display e)) (set_conn connecting a)

  unfoldable pub select : Answers C → Str → Actor C → Actor C
  unfolding detect_mapping republish_slot
  select ans uri a =
      republish_slot
        (detect_mapping ans (record a { state = record a.state { selected_uri = some uri } }))

  unfoldable pub probe_region : Answers C → MemRegion → Actor C → Actor C
  unfolding probe_result
  probe_region ans region a = record a {
    state = record a.state {
      last_probe = elim (both a.client a.state.selected_uri) [
        | none ↦ record no_probe {
          region = some region;
          error = some (str "not connected / no device selected");
        }
        | some _ ↦ probe_result region ans.rtt_ms ans.read
      ];
    };
  }

  unfoldable pub write_region : MemRegion → List ℕ → Actor C → Actor C
  write_region region bytes a = elim (both a.client a.state.selected_uri) [
    | none ↦ a
    | some (c, u) ↦ record a { written = a.written ++ (c, u, region, bytes) ∷ [] }
  ]

  -- One command of `run`'s loop.
  unfoldable pub handle : Cmd × Answers C → Actor C → Actor C
  unfolding connect_to refresh select probe_region write_region republish_slot
  handle (connect endpoint, ans) a = connect_to ans ans.connected a
  handle (disconnect, ans) a = republish_slot (record a { client = none; state = no_state })
  handle (refresh_devices, ans) a = refresh ans a
  handle (select_device uri, ans) a = select ans uri a
  handle (probe region, ans) a = probe_region ans region a
  handle (write region bytes, ans) a = write_region region bytes a

  unfoldable pub run : List (Cmd × Answers C) → Actor C → Actor C
  unfolding handle
  run [] a = a
  run (cmd ∷ cmds) a = run cmds (handle cmd a)
