-- ===== src/Tests/Requests.antt =====
-- A request of a script and the response to it.
use sni_lua.Common.{ℕ, ◌≡◌, ◌==◌, if◌then◌else◌, refl, true, [], ◌∷◌, Option, some, none, Str, str}
use sni_lua.Common.Map.{get}
use sni_lua.Host.Requests.Late.{at, left, deliver-request}
use sni_lua.Host.Requests.{HttpOpts, request}
use sni_lua.Host.Script.{Lua, Http, build, deliver}
use sni_lua.Runtime.Http as Bridge
use sni_lua.Snapshot.{empty}
use sni_lua.Tests.Data.{whole, registry}
use sni_lua.Tests.Toys.{Toy, trees, toy}

-- the machine whose callbacks keep the status of the response
abbrev kept : ℕ → Str → Toy → Str × Toy × Option Str
kept r vm w = (r ∷ vm, w, none)

abbrev caller : Lua Toy ℕ ℕ
caller = record toy { callback = λ key vm. some kept }

-- the options are a callback alone
abbrev only_callback : HttpOpts ℕ
only_callback = record {
  T = ℕ;
  headers = λ t. none;
  body = λ t. none;
  timeout_ms = λ t. none;
  callback = λ t. some t;
}

abbrev world : Toy
world = (build whole whole trees toy 5 registry empty none).0.world

abbrev one_pending : Http ℕ ℕ
unfolding Bridge.new
one_pending = record { pending = (0, 3) ∷ []; responses = []; bridge = Bridge.new }

deliver-request_example :
    (h' : Http ℕ ℕ) × ((j : ℕ) → get j h'.pending ≡ (if 1 == j then none else get j ((0, 3) ∷ [])))
    × (h'.responses ≡ [])
    × (deliver whole caller ((1, 200) ∷ []) (str "vm") (
          request whole only_callback true
            (λ cb. some cb)
            (str "GET")
            (str "http://x/")
            (some 7)
            (at whole caller world one_pending))
        ≡ left whole caller (kept 200 (str "vm") (at whole caller world h')))
unfolding Bridge.new
deliver-request_example =
    deliver-request whole caller only_callback (λ cb. some cb) (str "GET") (str "http://x/")
      (some 7) one_pending world 7 kept (str "vm") 200 refl refl refl
