-- ===== src/Host/Requests.antt =====
-- The `http` table's request (crates/sni-lua-api/src/lib.rs), and `submit` of the bridge run with no
-- step of the worker in between. An option table is read by mlua's conversions, an interface.
pub mod Late
use sni_lua.Common.Float.{Float}
use sni_lua.Common.Map
use sni_lua.Common.{ℕ, Bool, List, [], ◌++◌, Option, none, some, if◌then◌else◌, leb, ltb, Str, str}
use sni_lua.Host.Script.{World, Http, log}
use sni_lua.Runtime.Http.{HttpRequest, HttpBridge, http_max_in_flight, reserve, back_out, enqueue}

-- the answer of `submit`: the id of the request, unless it was refused
unfoldable pub submit : Bool → HttpRequest → HttpBridge → HttpBridge × Option ℕ
unfolding reserve back_out enqueue
submit alive req b =
    let r = reserve req b in
    if leb http_max_in_flight b.in_flight
    then (back_out r, none)
    else (enqueue alive req r, if alive then some b.next_id else none)

-- The fields of the options. `Cb` stands for a function of the script.
pub record HttpOpts (Cb : Type 0) : Type 1 where
  pub T : Type 0
  -- the entries of the table `headers` whose key and value convert to strings
  pub headers : T → Option (List (Str × Str))
  -- the bytes of `body`
  pub body : T → Option (List ℕ)
  pub timeout_ms : T → Option ℕ
  pub callback : T → Option Cb

abbrev no_headers : Option (List (Str × Str)) → List (Str × Str)
no_headers none = []
no_headers (some h) = h

-- a timeout of 0 leaves the default
abbrev pub timeout_of : Option ℕ → ℕ
timeout_of none = 15_000
timeout_of (some t) = if ltb 0 t then t else 15_000

unfoldable pub http_request :
    {Cb : Type 0} (o : HttpOpts Cb) → (method url : Str) → Option o.T → HttpRequest
http_request o method url none = record {
  method = method;
  url = url;
  headers = [];
  body = none;
  timeout_ms = 15_000;
  id = 0;
}
http_request o method url (some t) = record {
  method = method;
  url = url;
  headers = no_headers (o.headers t);
  body = o.body t;
  timeout_ms = timeout_of (o.timeout_ms t);
  id = 0;
}

abbrev pub callback_of : {Cb : Type 0} (o : HttpOpts Cb) → Option o.T → Option Cb
callback_of o none = none
callback_of o (some t) = o.callback t

-- The callback is stored by the request's id; `registered` is the key of its registration.
unfoldable pub stash : {K R : Type 0} → ℕ → Option K → Http K R → Http K R
stash id none h = h
stash id (some key) h = record h { pending = Map.insert id key h.pending }

-- `register` is `create_registry_value`
abbrev pub registered : {Cb K : Type 0} → (register : Cb → Option K) → Option Cb → Option K
registered register none = none
registered register (some cb) = register cb

module _ (fl : Float) {D K R J Cb : Type 0} (o : HttpOpts Cb) where
  unfoldable pub request :
      Bool
      → (register : Cb → Option K) → (method url : Str) → Option o.T
      → World fl.F D J K R
      → World fl.F D J K R
  unfolding submit http_request stash
  request alive register method url opts w = elim w.http [
    | none ↦ log fl (str "[http] unavailable (no async runtime) — request dropped") w
    | some h ↦
        let (b, answer) = submit alive (http_request o method url opts) h.bridge in
        let sent = record h { bridge = b } in
        elim answer [
          | none ↦
              log fl (str "[http] too many in-flight requests (max 16) — dropped")
                (record w { http = some sent })
          | some id ↦ record w {
            http = some (stash id (registered register (callback_of o opts)) sent);
          }
        ]
  ]
