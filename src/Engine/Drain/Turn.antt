-- ===== src/Engine/Drain/Turn.antt =====
-- What one turn of the drain loop does: it stops and has read nothing, or it reads one batch.
use sni_lua.Client.{Result, ok, err, multi_read}
use sni_lua.Common.Float.{Float}
use sni_lua.Common.{
  ℕ, ◌≡◌, ◌≢◌, refl, ap, Bool, true, false, not, ◌&&◌, ◌||◌, is_empty, List, [], Bool-cases,
  Option-cases, inl, inr, arith, leb, ◌==◌,
}
use sni_lua.Engine.Budget.{budget_for_remaining_time, batch_fits_remaining_time}
use sni_lua.Engine.Drain.{
  Round, Drain, DrainEnv, frame_ms, regions_of, sum_sizes, succeed, fail, issue, pending_reads,
  offer, with_budget, drain_round,
}
use sni_lua.Engine.Select.{select_bulk}
use sni_lua.Watch.Coalesce.{CoalescedRead}

module _ (fl : Float) (env : DrainEnv fl.F) (round : Round) where
  -- the variables with another `budget_capped`
  abbrev pub capping : Drain fl.F → Bool → Drain fl.F
  capping d b = record d { budget_capped = b }

  abbrev pub batch_of : ℕ → Drain fl.F → List CoalescedRead
  batch_of budget d =
      (select_bulk (pending_reads fl env budget d) budget d.read_state env.cycle).reads

  pub data Turned (d : Drain fl.F) (t : Drain fl.F × Bool) : Type 0 where
    stopped :
        t.1 ≡ false
        → t.0.builder ≡ d.builder
        → t.0.done_this_cycle ≡ d.done_this_cycle
        → t.0.budget ≡ d.budget
        → Turned d t
    went :
        (budget : ℕ) (capped : Bool) (blobs : List (List ℕ))
        → pending_reads fl env budget d ≢ []
        → multi_read round.call (regions_of (batch_of budget d)) ≡ ok blobs
        → t.0 ≡ succeed fl env round (batch_of budget d) blobs (capping d capped)
        → Turned d t

  module _ (d : Drain fl.F) (budget : ℕ) (some_pending : pending_reads fl env budget d ≢ []) where
    issue-Turned :
        (capped : Bool) → Turned d (issue fl env round (batch_of budget d) (capping d capped))
    unfolding issue fail
    issue-Turned capped = go (multi_read round.call (regions_of (batch_of budget d))) refl
      where
        go :
            (r : Result (List (List ℕ)))
            → multi_read round.call (regions_of (batch_of budget d)) ≡ r
            → Turned d (issue fl env round (batch_of budget d) (capping d capped))
        go (ok blobs) e = went budget capped blobs some_pending e (rw (e, issue) refl)
        go (err x) e = rw (e, issue) (stopped refl refl refl refl)

    offer-Turned :
        (force : Bool)
        → Turned d (
            offer fl env round force
              (select_bulk (pending_reads fl env budget d) budget d.read_state env.cycle)
              d)
    unfolding offer
    offer-Turned force =
        let sel = select_bulk (pending_reads fl env budget d) budget d.read_state env.cycle in
        let fits =
          batch_fits_remaining_time fl (sum_sizes sel.reads) d.throughput d.latency_floor_ms
            round.elapsed_ms (frame_ms fl env.cfg) in
        elim (Bool-cases (is_empty sel.reads)) [
          | inl e ↦ rw (e, offer) (stopped refl refl refl refl)
          | inr e ↦ elim (Bool-cases (not force && not fits)) [
            | inl f ↦ rw (e, f, offer) (stopped refl refl refl refl)
            | inr f ↦ rw (e, f, offer) (issue-Turned (d.budget_capped || sel.capped))
          ]
        ]

  not_empty : (rs : List CoalescedRead) → is_empty rs ≡ false → rs ≢ []
  not_empty rs h e = ground (arith, ap is_empty e)

  with_budget-Turned :
      (d : Drain fl.F) (budget : ℕ) (force : Bool)
      → Turned d (with_budget fl env round force budget d)
  unfolding with_budget
  with_budget-Turned d budget force = elim (Bool-cases (is_empty (pending_reads fl env budget d))) [
    | inl e ↦ rw (e, with_budget) (stopped refl refl refl refl)
    | inr e ↦ rw (e, with_budget) (offer-Turned d budget (not_empty _ e) force)
  ]

  -- Every turn stops with nothing read, or reads the batch of some budget and applies its reply.
  pub drain_round-Turned : (d : Drain fl.F) → Turned d (drain_round fl env round d)
  unfolding drain_round
  drain_round-Turned d =
      let force = d.reads_issued == 0 in
      let frame = frame_ms fl env.cfg in
      let trimmed =
        budget_for_remaining_time fl d.budget d.throughput d.latency_floor_ms round.elapsed_ms
          frame in
      elim (Bool-cases (leb frame round.elapsed_ms && not force)) [
        | inl e ↦ rw (e, drain_round) (stopped refl refl refl refl)
        | inr e ↦ elim (Option-cases trimmed) [
          | inr (b, t) ↦ rw (e, t, drain_round) (with_budget-Turned d b force)
          | inl t ↦ elim (Bool-cases force) [
            | inl f ↦ rw (e, t, drain_round) (rw f (with_budget-Turned d d.budget true))
            | inr f ↦ rw (e, t, drain_round) (rw f (stopped refl refl refl refl))
          ]
        ]
      ]
