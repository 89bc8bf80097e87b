-- ===== src/Host/Requests/Late.antt =====
-- A response and the callback of its request.
use sni_lua.Common.Float.{Float}
use sni_lua.Common.Map
use sni_lua.Common.Map.{Map, get, get-insert, get-remove}
use sni_lua.Common.{
  ℕ, ◌≡◌, refl, ◌∙◌, Bool, true, false, List, [], ◌∷◌, ◌++◌, Option, none, some, Str, str, All,
  ==_refl, leb, ◌==◌, if◌then◌else◌, ap, Bool-cases, inl, inr,
}
use sni_lua.Host.Requests.{submit, HttpOpts, request, callback_of, registered, stash, http_request}
use sni_lua.Host.Script.{
  World, Lua, Http, log, logged, deliver, pump_http, cleared, forget_callbacks,
}
use sni_lua.Runtime.Http.{
  HttpRequest, HttpBridge, http_max_in_flight, reserve, idle, Reachable, steps, reserves, backs_out,
  enqueues,
}

-- A `submit` that nothing interrupts is steps of the bridge.
pub submit-Reachable :
    (alive : Bool) (req : HttpRequest) (b : HttpBridge)
    → b.phase ≡ idle
    → Reachable b
    → Reachable (submit alive req b).0
unfolding submit reserve
submit-Reachable alive req b e r = elim (Bool-cases (leb http_max_in_flight b.in_flight)) [
  | inl full ↦ rw full (steps (steps r (reserves req e)) (backs_out req (rw full refl)))
  | inr free ↦ rw free (steps (steps r (reserves req e)) (enqueues alive req (rw free refl)))
]

module _ (fl : Float) {D K R J : Type 0} (lua : Lua (World fl.F D J K R) K R) where
  -- no callback waits for the response
  abbrev pub IsForgotten : Http K R → ℕ × R → Type 0
  IsForgotten h (id, r) = get id h.pending ≡ none

  abbrev pub at : World fl.F D J K R → Http K R → World fl.F D J K R
  at w h = record w { http = some h }

  -- Responses that no callback waits for run nothing of the script and change nothing.
  pub deliver-forgotten :
      (h : Http K R) (rs : List (ℕ × R)) (vm : lua.Vm) (w : World fl.F D J K R)
      → All (IsForgotten h) rs
      → deliver fl lua rs vm (at w h) ≡ (vm, at w h)
  unfolding deliver
  deliver-forgotten h [] vm w a = refl
  deliver-forgotten h ((id, r) ∷ rs) vm w (n, a) = rw (deliver, n) (deliver-forgotten h rs vm w a)

  All-IsForgotten : (rs : List (ℕ × R)) (h : Http K R) → h.pending ≡ [] → All (IsForgotten h) rs
  unfolding get
  All-IsForgotten [] h e = tt
  All-IsForgotten ((id, r) ∷ rs) h e = (rw e refl, All-IsForgotten rs h e)

  -- Whatever responses to the requests of the script before arrive by the first frame after a load's
  -- clearing, they are dropped: nothing of the new script is run for them.
  pub pump_http-cleared :
      (now : ℕ) (h : Http K R) (vm : lua.Vm) (w : World fl.F D J K R)
      → pump_http fl lua vm (cleared fl now (at w h)) ≡ (
        vm,
        at (cleared fl now (at w h)) record { pending = []; responses = []; bridge = h.bridge },
      )
  unfolding pump_http cleared forget_callbacks
  pump_http-cleared now h vm w =
      let gone : Http K R = record { pending = []; responses = []; bridge = h.bridge } in
      deliver-forgotten gone h.responses vm (cleared fl now (at w h))
        (All-IsForgotten h.responses gone refl)

  abbrev label : Str
  label = str "[http callback error] "

  -- the world that the callback of `id` is called in
  abbrev pub taken : ℕ → Http K R → Http K R
  taken id h = record h { pending = Map.remove id h.pending }

  -- what a call leaves once its error is logged
  abbrev pub left : lua.Vm × World fl.F D J K R × Option Str → lua.Vm × World fl.F D J K R
  left t = let (vm, w, _) = logged fl lua label t in (vm, w)

  answered :
      (t : lua.Vm × World fl.F D J K R × Option Str)
      → elim t.2 [ none ↦ (t.0, t.1) | some e ↦ (t.0, log fl (label ++ e) t.1) ] ≡ left t
  unfolding logged
  answered (vm, w, none) = refl
  answered (vm, w, some e) = refl

  deliver-one :
      (h : Http K R) (w : World fl.F D J K R) (id : ℕ) (key : K)
      (f : R → lua.Vm → World fl.F D J K R → lua.Vm × World fl.F D J K R × Option Str) (vm : lua.Vm)
      (r : R)
      → get id h.pending ≡ some key
      → lua.callback key vm ≡ some f
      → deliver fl lua ((id, r) ∷ []) vm (at w h) ≡ left (f r vm (at w (taken id h)))
  unfolding deliver
  deliver-one h w id key f vm r g call =
      rw (deliver, g, call) (answered (f r vm (at w (taken id h))))

  -- the bridge after a request that was sent
  abbrev pub sent_by :
      {Cb : Type 0} (o : HttpOpts Cb) (method url : Str) → Option o.T → HttpBridge → HttpBridge
  sent_by o method url opts b = (submit true (http_request o method url opts) b).0

  request-sent :
      {Cb : Type 0} (o : HttpOpts Cb) (register : Cb → Option K) (method url : Str)
      (opts : Option o.T) (h : Http K R) (w : World fl.F D J K R) (key : K)
      → leb http_max_in_flight h.bridge.in_flight ≡ false
      → registered register (callback_of o opts) ≡ some key
      → request fl o true register method url opts (at w h)
        ≡ at w (
            stash h.bridge.next_id
              (some key)
              (record h { bridge = sent_by o method url opts h.bridge }))
  unfolding request submit
  request-sent o register method url opts h w key room reg = rw (request, submit, room, reg) refl

  -- A request with a callback is sent, and the response to it is delivered before anything else
  -- happens to the host. Then the callback is called with the response, once: when it is called it
  -- waits no longer, while each other callback that waited for its response waits still, and the
  -- responses that had arrived are there still. What the call leaves is what the delivery leaves, with
  -- its error logged. Sent means that fewer than 16 requests were in flight, and that the worker runs.
  pub deliver-request :
      {Cb : Type 0} (o : HttpOpts Cb) (register : Cb → Option K) (method url : Str)
      (opts : Option o.T) (h : Http K R) (w : World fl.F D J K R) (key : K)
      (f : R → lua.Vm → World fl.F D J K R → lua.Vm × World fl.F D J K R × Option Str) (vm : lua.Vm)
      (r : R)
      → leb http_max_in_flight h.bridge.in_flight ≡ false
      → registered register (callback_of o opts) ≡ some key
      → lua.callback key vm ≡ some f
      → (h' : Http K R) × ((j : ℕ)
          → get j h'.pending ≡ (if h.bridge.next_id == j then none else get j h.pending))
        × (h'.responses ≡ h.responses)
        × (deliver fl lua
              ((h.bridge.next_id, r) ∷ [])
              vm
              (request fl o true register method url opts (at w h))
            ≡ left (f r vm (at w h')))
  unfolding stash
  deliver-request o register method url opts h w key f vm r room reg call =
      let id = h.bridge.next_id in
      let sent = stash id (some key) (record h { bridge = sent_by o method url opts h.bridge }) in
      (
        taken id sent,
        (λ j.
            get-remove id j sent.pending
            ∙ ap (λ v. if id == j then none else v) (get-insert id j key h.pending)
            ∙ elim (Bool-cases (id == j)) [ inl e ↦ rw e refl | inr e ↦ rw e refl ]),
        refl,
        rw (request-sent o register method url opts h w key room reg) (
            deliver-one sent w id key f vm r (get-insert id id key h.pending ∙ rw (==_refl id) refl)
              call),
      )
