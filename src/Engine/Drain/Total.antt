-- ===== src/Engine/Drain/Total.antt =====
-- The drain loop ends: every turn that goes on services a watch that was not done.
use sni_lua.Common.Float.{Float}
use sni_lua.Common.IdSet.{IdSet, contains}
use sni_lua.Common.Map
use sni_lua.Common.{
  ℕ, zero, suc, ◌≤◌, ◌<◌, ◌≡◌, ◌≢◌, refl, sym, ◌∙◌, ap, true, false, not, List, [], ◌∷◌, All,
  All-perm, All-append_left, All-retain_test, none, some, any, if◌then◌else◌, Bool-cases,
  Option-cases, inl, inr, arith, ltb, ◌==◌, ==_refl, eq_of_==, and-eq-true, not-eq-true,
}
use sni_lua.Engine.Drain.Turn.{stopped, went, batch_of, drain_round-Turned}
use sni_lua.Engine.Drain.{Round, Drain, DrainEnv, succeed, pending_reads, drain_round, drain_loop}
use sni_lua.Engine.Pending.Marks.{has_member, is_read, contains-mark_done}
use sni_lua.Engine.Pending.{
  Requests, ReadStates, requested, state_of, member_is_pending, read_is_pending, mark_done,
}
use sni_lua.Engine.Select.Admission.{select_bulk-perm, select_bulk-stalest}
use sni_lua.Engine.Split.{Member, split_reads_to_budget}
use sni_lua.Watch.Coalesce.{CoalescedRead}

-- how many of the requested watches are not done
unfoldable pub undone : Requests → IdSet → ℕ
undone [] done = 0
undone ((id, seq) ∷ reqs) done =
    let rest = undone reqs done in if contains id done then rest else suc rest

abbrev Grown : IdSet → IdSet → Type 0
Grown a b = (id : ℕ) → contains id a ≡ true → contains id b ≡ true

undone-le : (reqs : Requests) (a b : IdSet) → Grown a b → undone reqs b ≤ undone reqs a
unfolding undone
undone-le [] a b g = omega arith
undone-le ((id, seq) ∷ reqs) a b g = ground (arith, g id, undone-le reqs a b g)

undone-lt :
    (reqs : Requests) (a b : IdSet) (id seq : ℕ)
    → Grown a b
    → Map.get id reqs ≡ some seq
    → contains id a ≡ false
    → contains id b ≡ true
    → undone reqs b < undone reqs a
unfolding undone Map.get
undone-lt [] a b id seq g h ha hb = cc
undone-lt ((j, s) ∷ reqs) a b id seq g h ha hb = elim (Bool-cases (j == id)) [
  | inl e ↦
      let same : j ≡ id = eq_of_== j id e in
      let fa : contains j a ≡ false = ap (λ k. contains k a) same ∙ ha in
      let tb : contains j b ≡ true = ap (λ k. contains k b) same ∙ hb in
      ground (arith, undone-le reqs a b g)
  | inr e ↦ ground (arith, g j, undone-lt reqs a b id seq g)
]

-- a watch that makes a read pending
record Waiting (reqs : Requests) (done : IdSet) (ms : List Member) : Type 0 where
  id : ℕ
  seq : ℕ
  member : has_member id ms ≡ true
  waits : contains id done ≡ false
  asked : Map.get id reqs ≡ some seq

requested-none :
    (reqs : Requests) (id n : ℕ) → Map.get id reqs ≡ none → ltb n (requested reqs id) ≡ false
requested-none reqs id n q = rw (q, requested) (ground arith)

Waiting-member :
    (reqs : Requests) (states : ReadStates) (done : IdSet) (ms : List Member)
    → any (member_is_pending reqs states done) ms ≡ true
    → Waiting reqs done ms
unfolding has_member
Waiting-member reqs states done [] h = cc
Waiting-member reqs states done (m ∷ ms) h =
    elim (Bool-cases (member_is_pending reqs states done m)) [
      | inl e ↦
          let (w, l) = and-eq-true (not (contains m.0 done)) _ e in
          elim (Option-cases (Map.get m.0 reqs)) [
            | inr (seq, q) ↦ record {
              id = m.0;
              seq = seq;
              member = ground (arith, ==_refl m.0);
              waits = not-eq-true (contains m.0 done) w;
              asked = q;
            }
            | inl q ↦ ground (arith, requested-none reqs m.0 (state_of states m.0).request_seq q, l)
          ]
      | inr e ↦
          let later : any (member_is_pending reqs states done) ms ≡ true = (rw e at h) in
          let w = Waiting-member reqs states done ms later in
          record {
            id = w.id;
            seq = w.seq;
            member = ground (arith, w.member);
            waits = w.waits;
            asked = w.asked;
          }
    ]

-- the watches of a read are those of a batch that begins with it
waiting_read :
    (reqs : Requests) (states : ReadStates) (done : IdSet) (rs : List CoalescedRead)
    → rs ≢ []
    → All (λ r. read_is_pending r reqs states done ≡ true) rs
    → (id : ℕ) × (seq : ℕ) × (is_read id rs ≡ true)
      × (contains id done ≡ false)
      × (Map.get id reqs ≡ some seq)
unfolding read_is_pending is_read
waiting_read reqs states done [] ne h = absurd (ne refl)
waiting_read reqs states done (r ∷ rs) ne h =
    let w = Waiting-member reqs states done r.members h.0 in
    (w.id, w.seq, ground (arith, w.member), w.waits, w.asked)

module _ (fl : Float) (env : DrainEnv fl.F) (round : Round) where
  batch-pending :
      (budget : ℕ) (d : Drain fl.F)
      → All
          (λ r. read_is_pending r env.request_seq d.read_state d.done_this_cycle ≡ true)
          (batch_of fl env round budget d)
  unfolding pending_reads
  batch-pending budget d =
      let (rest, p, c) =
        select_bulk-perm (pending_reads fl env budget d) budget d.read_state env.cycle in
      let Pending : CoalescedRead → Type 0 =
        λ r. read_is_pending r env.request_seq d.read_state d.done_this_cycle ≡ true in
      All-append_left Pending (batch_of fl env round budget d) rest (
        All-perm Pending p (
          All-retain_test (λ r. read_is_pending r env.request_seq d.read_state d.done_this_cycle)
            (split_reads_to_budget env.coalesced_all budget)))

  pub batch-some :
      (budget : ℕ) (d : Drain fl.F)
      → pending_reads fl env budget d ≢ []
      → batch_of fl env round budget d ≢ []
  batch-some budget d ne e =
      let (first, rest, q, s) =
        select_bulk-stalest (pending_reads fl env budget d) budget d.read_state env.cycle ne in
      ground (arith, sym e ∙ q)

  -- A turn after which the loop goes on leaves fewer watches that are not done.
  pub drain_round-undone :
      (d : Drain fl.F)
      → (drain_round fl env round d).1 ≡ true
      → undone env.request_seq (drain_round fl env round d).0.done_this_cycle
        < undone env.request_seq d.done_this_cycle
  unfolding succeed
  drain_round-undone d again = elim (drain_round-Turned fl env round d) [
    | stopped e b s u ↦ ground (arith, e, again)
    | went budget capped blobs ne e t ↦
        let rs = batch_of fl env round budget d in
        let (id, seq, m, w, a) =
          waiting_read env.request_seq d.read_state d.done_this_cycle rs (batch-some budget d ne)
            (batch-pending budget d) in
        rw t (
          undone-lt env.request_seq d.done_this_cycle (mark_done rs d.done_this_cycle) id seq
            (λ j h. ground (arith, contains-mark_done j rs d.done_this_cycle)) a w
            (ground (arith, contains-mark_done id rs d.done_this_cycle)))
  ]

-- Given fuel for each requested watch that is not done, and for one turn more, the drain loop
-- ends, whatever the clock and the console answer.
pub drain_loop-total :
    (fl : Float) (env : DrainEnv fl.F) (rounds : ℕ → Round) (fuel i : ℕ) (d : Drain fl.F)
    → undone env.request_seq d.done_this_cycle < fuel
    → (d' : Drain fl.F) × (drain_loop fl fuel env rounds i d ≡ some d')
unfolding drain_loop
drain_loop-total fl env rounds zero i d h = ground arith
drain_loop-total fl env rounds (suc fuel) i d h =
    let turn = drain_round fl env (rounds i) d in
    elim (Bool-cases turn.1) [
      | inl e ↦
          let fewer : undone env.request_seq turn.0.done_this_cycle
              < undone env.request_seq d.done_this_cycle =
            drain_round-undone fl env (rounds i) d e in
          let enough : undone env.request_seq turn.0.done_this_cycle < fuel =
            omega (arith, h, fewer) in
          let (d', q) = drain_loop-total fl env rounds fuel (suc i) turn.0 enough in
          (d', rw (e, drain_loop) q)
      | inr e ↦ (turn.0, rw (e, drain_loop) refl)
    ]
