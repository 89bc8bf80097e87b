-- ===== src/Engine/Drain/Progress.antt =====
-- The first bulk batch of a cycle is read however late it is.
use sni_lua.Client.{MemRegion, ok, multi_read}
use sni_lua.Common.Float.{Float}
use sni_lua.Common.{
  ℕ, ◌+◌, ◌≡◌, ◌≢◌, refl, ◌∙◌, Bool, true, false, not, ◌&&◌, is_empty, List, [], Option-cases, inl,
  inr, arith, leb, ◌==◌,
}
use sni_lua.Engine.Budget.{budget_for_remaining_time}
use sni_lua.Engine.Drain.Total.{batch-some}
use sni_lua.Engine.Drain.Turn.{batch_of}
use sni_lua.Engine.Drain.{
  Round, Drain, DrainEnv, frame_ms, regions_of, succeed, issue, pending_reads, offer, with_budget,
  drain_round,
}
use sni_lua.Watch.Coalesce.{CoalescedRead}

module _ (fl : Float) (env : DrainEnv fl.F) (round : Round) (d : Drain fl.F)
    (answers : (regions : List MemRegion)
      → (blobs : List (List ℕ)) × (multi_read round.call regions ≡ ok blobs)) where
  issue-progress :
      (rs : List CoalescedRead) (capped : Bool)
      → (issue fl env round rs (record d { budget_capped = capped })).0.reads_issued
        ≡ d.reads_issued + 1
  unfolding issue succeed
  issue-progress rs capped = let (blobs, e) = answers (regions_of rs) in rw (e, issue) refl

  is_empty-false : {rs : List CoalescedRead} → rs ≢ [] → is_empty rs ≡ false
  is_empty-false {rs} ne = ground (arith, ne)

  with_budget-progress :
      (budget : ℕ)
      → pending_reads fl env budget d ≢ []
      → (with_budget fl env round true budget d).0.reads_issued ≡ d.reads_issued + 1
  unfolding with_budget offer
  with_budget-progress budget ne =
      rw
        (
          is_empty-false ne,
          with_budget,
          is_empty-false (batch-some fl env round budget d ne),
          offer,
        )
        (issue-progress (batch_of fl env round budget d) _)

  -- If something is pending at every budget and the console answers, the first turn of a cycle
  -- reads a batch, whatever time is left of the frame.
  pub drain_round-progress :
      ((budget : ℕ) → pending_reads fl env budget d ≢ [])
      → d.reads_issued ≡ 0
      → (drain_round fl env round d).0.reads_issued ≡ 1
  unfolding drain_round
  drain_round-progress ne first =
      let trimmed =
        budget_for_remaining_time fl d.budget d.throughput d.latency_floor_ms round.elapsed_ms
          (frame_ms fl env.cfg) in
      let one : d.reads_issued + 1 ≡ 1 = omega (arith, first) in
      let late : (leb (frame_ms fl env.cfg) round.elapsed_ms && not (d.reads_issued == 0)) ≡ false =
        rw first (ground arith) in
      let force : (d.reads_issued == 0) ≡ true = rw first (ground arith) in
      elim (Option-cases trimmed) [
        | inr (b, t) ↦ rw (late, t, drain_round) (rw force (with_budget-progress b (ne b) ∙ one))
        | inl t ↦
            rw (late, t, drain_round) (rw force (with_budget-progress d.budget (ne d.budget) ∙ one))
      ]
