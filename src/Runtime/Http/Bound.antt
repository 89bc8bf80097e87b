-- ===== src/Runtime/Http/Bound.antt =====
-- The cap holds, whatever the interleaving.
use sni_lua.Common.{
  ℕ, suc, ◌+◌, ◌≤◌, ◌≡◌, refl, ap, ◌∙◌, true, false, [], ◌∷◌, length, length-append, leb,
  leb_false→lt, Bool-cases, inl, inr, arith,
}
use sni_lua.Runtime.Http.{
  HttpBridge, Phase, idle, reserved, refused, new, reserve, back_out, enqueue, finish, Step,
  reserves, backs_out, enqueues, finishes, Reachable, starts, steps, http_max_in_flight,
}

-- the slots that `submit` holds beyond the requests sent
abbrev pub held : Phase → ℕ
held idle = 0
held (reserved req) = 1
held (refused req) = 1

-- what a reserved slot adds to the requests that count against the cap
abbrev claimed : Phase → ℕ
claimed idle = 0
claimed (reserved req) = 1
claimed (refused req) = 0

pub record IsBounded (b : HttpBridge) : Type 0 where
  pub counted : b.in_flight ≡ length b.outstanding + held b.phase
  pub capped : length b.outstanding + claimed b.phase ≤ http_max_in_flight

Step-IsBounded : {b b' : HttpBridge} → Step b b' → IsBounded b → IsBounded b'
unfolding reserve back_out enqueue finish
Step-IsBounded {b} (reserves req e) v =
    let h0 : held b.phase ≡ 0 = ap held e in
    elim (Bool-cases (leb http_max_in_flight b.in_flight)) [
      | inl f ↦
          rw f (record { counted = omega (arith, v.counted, h0); capped = omega (arith, v.capped) })
      | inr f ↦ rw f (record {
        counted = omega (arith, v.counted, h0);
        capped = omega (arith, v.counted, h0, leb_false→lt http_max_in_flight b.in_flight f);
      })
    ]
Step-IsBounded {b} (backs_out req e) v =
    let h1 : held b.phase ≡ 1 = ap held e in
    record { counted = omega (arith, v.counted, h1); capped = omega (arith, v.capped) }
Step-IsBounded {b} (enqueues true req e) v =
    let h1 : held b.phase ≡ 1 = ap held e in
    let c1 : claimed b.phase ≡ 1 = ap claimed e in
    let l = length-append b.outstanding (record req { id = b.next_id } ∷ []) in
    record { counted = omega (arith, v.counted, h1, l); capped = omega (arith, v.capped, c1, l) }
Step-IsBounded {b} (enqueues false req e) v =
    let h1 : held b.phase ≡ 1 = ap held e in
    record { counted = omega (arith, v.counted, h1); capped = omega (arith, v.capped) }
Step-IsBounded {b} (finishes before after req e) v =
    let l : length b.outstanding ≡ length before + suc (length after) =
      ap length e ∙ length-append before (req ∷ after) in
    let l' = length-append before after in
    record { counted = omega (arith, v.counted, l, l'); capped = omega (arith, v.capped, l, l') }

-- In every reachable state, however the script's thread and the worker interleave, the counter is
-- the number of unfinished requests and of the slot that a running `submit` holds, and no more
-- than 16 requests are unfinished.
pub Reachable-IsBounded : {b : HttpBridge} → Reachable b → IsBounded b
unfolding new
Reachable-IsBounded starts = record { counted = refl; capped = omega arith }
Reachable-IsBounded (steps r s) = Step-IsBounded s (Reachable-IsBounded r)
