-- ===== src/Engine/Cycle/Active.antt =====
-- What a valid registry gives the engine to poll.
use sni_lua.Common.Map
use sni_lua.Common.Map.{Map, Ascending}
use sni_lua.Common.{
  ℕ, suc, ◌<◌, ◌≡◌, Bool, false, List, [], ◌∷◌, map, All, retain, ◌==◌, Bool-cases, inl, inr, arith,
}
use sni_lua.Engine.Apply.Fresh.{Distinct}
use sni_lua.Watch.Registry.Invariant.{IsEntry, IsValid}
use sni_lua.Watch.Registry.{WatchEntry, WatchRegistry, active, active_with_requests, is_active}
use sni_lua.Watch.{WatchHandle}

module _ (ids seqs : ℕ) (p : WatchEntry → Bool) where
  abbrev handles : Map WatchEntry → List WatchHandle
  handles inner =
      map (λ (q : WatchHandle × ℕ). q.0)
        (map (λ (e : WatchEntry). (e.handle, e.request_seq)) (retain p (Map.values inner)))

  above :
      (lo id : ℕ) (inner : Map WatchEntry)
      → id < lo
      → Ascending lo inner
      → All (IsEntry ids seqs) inner
      → All (λ v. (v.id == id) ≡ false) (handles inner)
  above lo id [] h a es = tt
  above lo id ((k, e) ∷ inner) h a es =
      let rest = above (suc k) id inner (omega (arith, a.0)) a.1 es.1 in
      let other : (e.handle.id == id) ≡ false = ground (arith, es.0.1, a.0) in
      elim (Bool-cases (p e)) [ inl q ↦ rw q (other, rest) | inr q ↦ rw q rest ]

  handles-Distinct :
      (lo : ℕ) (inner : Map WatchEntry)
      → Ascending lo inner
      → All (IsEntry ids seqs) inner
      → Distinct (handles inner)
  handles-Distinct lo [] a es = tt
  handles-Distinct lo ((k, e) ∷ inner) a es =
      let rest = handles-Distinct (suc k) inner a.1 es.1 in
      let below : e.handle.id < suc k = omega (arith, es.0.1) in
      elim (Bool-cases (p e)) [
        | inl q ↦ rw q (above (suc k) e.handle.id inner below a.1 es.1, rest)
        | inr q ↦ rw q rest
      ]

-- The watches that a valid registry has the engine poll have distinct ids, at any moment and for
-- any window.
pub active-Distinct :
    (reg : WatchRegistry) (window now : ℕ) → IsValid reg → Distinct (active reg window now)
unfolding active active_with_requests
active-Distinct reg window now v =
    handles-Distinct reg.next_id reg.next_request (is_active window now) 0 reg.inner v.ascending
      v.entries
