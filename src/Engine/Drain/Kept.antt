-- ===== src/Engine/Drain/Kept.antt =====
-- What the drain loop keeps: the budget's bounds, and the watches of the other tier.
use sni_lua.Common.Float.{Float}
use sni_lua.Common.{ℕ, ◌≤◌, ◌≡◌, refl, ◌∙◌, List, All, All-retain, some, to_u32}
use sni_lua.Engine.Apply.Cycle.{Avoids, apply_reads-avoided}
use sni_lua.Engine.Apply.Fresh.{All-select_bulk}
use sni_lua.Engine.Budget.Bounds.{next_budget-bounds}
use sni_lua.Engine.Budget.{PollConfig, budgeted_transfer_ms, observe_latency_floor}
use sni_lua.Engine.Drain.Trace.{drain_loop-invariant}
use sni_lua.Engine.Drain.Turn.{stopped, went, batch_of, drain_round-Turned}
use sni_lua.Engine.Drain.{
  Round, Drain, DrainEnv, sum_sizes, next_throughput, succeed, pending_reads, drain_round,
  drain_loop,
}
use sni_lua.Engine.Split.{split_reads_to_budget}
use sni_lua.Snapshot.Builder.{built}
use sni_lua.Watch.Coalesce.{CoalescedRead}

-- The budget lies between the configured bounds.
abbrev pub InBounds : {F : Type 0} → PollConfig F → ℕ → Type 0
InBounds cfg budget = (cfg.min_byte_budget ≤ budget) × (budget ≤ cfg.max_byte_budget)

module _ (fl : Float) (env : DrainEnv fl.F) (rounds : ℕ → Round) where
  succeed-InBounds :
      env.cfg.min_byte_budget ≤ env.cfg.max_byte_budget
      → (round : Round) (reads : List CoalescedRead) (blobs : List (List ℕ)) (d : Drain fl.F)
      → InBounds env.cfg (succeed fl env round reads blobs d).budget
  unfolding succeed
  succeed-InBounds h round reads blobs d =
      let rtt = to_u32 round.took_ms in
      let transfer_ms = budgeted_transfer_ms fl rtt d.latency_floor_ms in
      let bpms = fl.div (fl.of_nat (sum_sizes reads)) (fl.of_nat transfer_ms) in
      next_budget-bounds fl d.budget transfer_ms
        (some (next_throughput fl env.cfg d.throughput bpms))
        (observe_latency_floor fl d.latency_floor_ms rtt) env.cfg h

  drain_round-InBounds :
      env.cfg.min_byte_budget ≤ env.cfg.max_byte_budget
      → (i : ℕ) (d : Drain fl.F) → InBounds env.cfg d.budget
      → InBounds env.cfg (drain_round fl env (rounds i) d).0.budget
  drain_round-InBounds h i d b = elim (drain_round-Turned fl env (rounds i) d) [
    | stopped e x s u ↦ rw u b
    | went budget capped blobs ne e q ↦ rw q (
        succeed-InBounds h (rounds i) (batch_of fl env (rounds i) budget d) blobs
          (record d { budget_capped = capped }))
  ]

  pub drain_loop-InBounds :
      env.cfg.min_byte_budget ≤ env.cfg.max_byte_budget
      → (fuel i : ℕ) (d d' : Drain fl.F) → InBounds env.cfg d.budget
      → drain_loop fl fuel env rounds i d ≡ some d'
      → InBounds env.cfg d'.budget
  drain_loop-InBounds h fuel i d d' b e =
      drain_loop-invariant fl env rounds (λ x. InBounds env.cfg x.budget) (drain_round-InBounds h)
        fuel i d d' b e

  module _ (id : ℕ)
      (avoids : (budget : ℕ)
        → All (Avoids id) (split_reads_to_budget env.coalesced_all budget)) where
    batch-Avoids :
        (i budget : ℕ) (d : Drain fl.F) → All (Avoids id) (batch_of fl env (rounds i) budget d)
    unfolding pending_reads
    batch-Avoids i budget d =
        All-select_bulk (Avoids id) _ budget d.read_state env.cycle
          (All-retain (Avoids id) _ _ (avoids budget))

    round-untouched :
        (start : Drain fl.F) (i : ℕ) (d : Drain fl.F)
        → built d.builder id ≡ built start.builder id
        → built (drain_round fl env (rounds i) d).0.builder id ≡ built start.builder id
    unfolding succeed
    round-untouched start i d same = elim (drain_round-Turned fl env (rounds i) d) [
      | stopped e b s u ↦ rw b same
      | went budget capped blobs ne e q ↦ rw q (
          apply_reads-avoided id (batch_of fl env (rounds i) budget d) blobs d.builder
            (batch-Avoids i budget d)
          ∙ same)
    ]

    pub loop-untouched :
        (fuel i : ℕ) (d d' : Drain fl.F)
        → drain_loop fl fuel env rounds i d ≡ some d'
        → built d'.builder id ≡ built d.builder id
    loop-untouched fuel i d d' e =
        drain_loop-invariant fl env rounds (λ x. built x.builder id ≡ built d.builder id)
          (round-untouched d) fuel i d d' refl e
