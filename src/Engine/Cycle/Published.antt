-- ===== src/Engine/Cycle/Published.antt =====
-- The snapshot that a cycle publishes.
use sni_lua.Client.{Result, ok, err}
use sni_lua.Common.Float.{Float}
use sni_lua.Common.{
  ℕ, ◌<◌, ◌+◌, ◌≡◌, refl, sym, ◌∙◌, false, not, List, [], map, Memᴰ, Memᴰ-retain, length, All,
  All-retain, retain, is_empty, some, if◌then◌else◌, Bool-cases, inl, inr, ◌⊎◌,
}
use sni_lua.Engine.Apply.Cycle.{Avoids, apply_reads-avoided}
use sni_lua.Engine.Apply.Fresh.{Distinct}
use sni_lua.Engine.Apply.Slices.{Memory, peek}
use sni_lua.Engine.Budget.{PollConfig}
use sni_lua.Engine.Cycle.Tiers.{Distinct-retain, retained_out, coalesce-Avoids}
use sni_lua.Watch.Coalesce.{CoalescedRead, coalesce}
use sni_lua.Engine.Cycle.{
  realtime_answer, CycleInput, EngineState, Tier1, is_live, requests_of, realtime_poll, begin_cycle,
  drain_env, begin_drain, finish_cycle, poll_cycle,
}
use sni_lua.Engine.Drain.Total.{undone}
use sni_lua.Engine.Drain.Trace.{Answers, drain_loop-Traced}
use sni_lua.Snapshot.Builder.{
  Cell, cell_of, built, fresh, older, unread, carry_forward, cell_of-build,
}
use sni_lua.Snapshot.{build, from_prev, retain_only}
use sni_lua.Watch.Registry.{all, active_with_requests}
use sni_lua.Watch.{WatchHandle, InRange, is_realtime}

-- what a watch carries into a cycle
abbrev pub carried : {F : Type 0} → CycleInput → EngineState F → ℕ → Cell
carried input st id =
    if is_live (all input.registry_all) id then older (cell_of st.current id) else unread

module _ (fl : Float) (cfg : PollConfig fl.F) (input : CycleInput) (st : EngineState fl.F) where
  built-begin_cycle : (id : ℕ) → built (begin_cycle fl input st).builder id ≡ carried input st id
  unfolding begin_cycle build
  built-begin_cycle id =
      sym (
        cell_of-build (retain_only (from_prev st.current) (is_live (all input.registry_all))) 0 0 0
          id)
      ∙ carry_forward st.current (is_live (all input.registry_all)) 0 0 0 id

  abbrev pub watches_of : List WatchHandle
  watches_of =
      map (λ p. p.0) (active_with_requests input.registry_active cfg.demand_window input.now)

  abbrev pub realtime_of : List WatchHandle
  realtime_of = retain (λ w. is_realtime w.priority) watches_of

  abbrev pub bulk_of : List WatchHandle
  bulk_of = retain (λ w. not (is_realtime w.priority)) watches_of

  abbrev pub requests : List (ℕ × ℕ)
  requests = requests_of (active_with_requests input.registry_active cfg.demand_window input.now)

  abbrev pub after_tier1 : Tier1 fl.F
  after_tier1 =
      realtime_poll fl cfg input realtime_of requests (st.cycle + 1) (begin_cycle fl input st)

  answered-avoided :
      (id : ℕ) (reads : List CoalescedRead) (rtt : ℕ) (t : Tier1 fl.F) (r : Result (List (List ℕ)))
      → All (Avoids id) reads
      → built (realtime_answer fl reads requests (st.cycle + 1) rtt t r).builder id
        ≡ built t.builder id
  unfolding realtime_answer
  answered-avoided id reads rtt t (ok blobs) h = apply_reads-avoided id reads blobs t.builder h
  answered-avoided id reads rtt t (err e) h = refl

  -- the sub-poll leaves a watch that is not one of its own
  tier1-avoided :
      (id : ℕ)
      → All (Avoids id) (coalesce realtime_of cfg.coalesce_gap)
      → built after_tier1.builder id ≡ carried input st id
  unfolding realtime_poll
  tier1-avoided id h = elim (Bool-cases (is_empty realtime_of)) [
    | inl e ↦ rw (e, realtime_poll) (built-begin_cycle id)
    | inr e ↦
        rw (e, realtime_poll)
          (answered-avoided id (coalesce realtime_of cfg.coalesce_gap) _ (begin_cycle fl input st) _
              h
            ∙ built-begin_cycle id)
  ]

  -- the active watches, as a registry gives them
  pub record IsPollable : Type 0 where
    pub in_range : All (λ v. InRange v.region) watches_of
    pub distinct : Distinct watches_of

  module _ (ok_watches : IsPollable) (w : WatchHandle) (m : Memᴰ w watches_of) where
    bulk-avoided :
        is_realtime w.priority ≡ false → built after_tier1.builder w.id ≡ carried input st w.id
    bulk-avoided e = tier1-avoided w.id (
        coalesce-Avoids w.id realtime_of cfg.coalesce_gap
          (All-retain _ _ watches_of ok_watches.in_range)
          (retained_out (λ v. is_realtime v.priority) w watches_of ok_watches.distinct m e))

    bulk-member : is_realtime w.priority ≡ false → Memᴰ w bulk_of
    bulk-member e = Memᴰ-retain (λ v. not (is_realtime v.priority)) w watches_of (rw e refl) m

  -- A cycle ends, given fuel for each requested watch and one turn more, and in the snapshot that it
  -- publishes each active watch below the realtime tier either holds what the console's memory was
  -- at its own region in some turn of the drain loop, with age 0, or has its last bytes and is one
  -- cycle older: for active watches with distinct ids that end below 2 ^ 32, and a console that
  -- answers each batch with its memory of that moment or with an error.
  pub poll_cycle-published :
      IsPollable
      → (mems : ℕ → Memory) → ((k : ℕ) → Answers (mems k) (input.rounds k))
      → (fuel : ℕ) → undone requests [] < fuel
      → (st' : EngineState fl.F) × (poll_cycle fl fuel cfg input st ≡ some st')
        × ((w : WatchHandle)
            → Memᴰ w watches_of
            → is_realtime w.priority ≡ false
            → (cell_of st'.current w.id ≡ carried input st w.id)
              ⊎ ((k : ℕ) × (cell_of st'.current w.id ≡ fresh w.region (peek (mems k) w.region))))
  unfolding poll_cycle drain_env begin_drain finish_cycle
  poll_cycle-published ok_watches mems answers fuel enough =
      let env =
        drain_env fl cfg (active_with_requests input.registry_active cfg.demand_window input.now)
          (st.cycle + 1) in
      let bulk_in_range : All (λ v. InRange v.region) bulk_of =
        All-retain _ _ watches_of ok_watches.in_range in
      let (d', e, t) =
        drain_loop-Traced fl env input.rounds mems answers bulk_of cfg.coalesce_gap refl
          bulk_in_range (Distinct-retain _ watches_of ok_watches.distinct)
          (begin_drain fl st after_tier1) fuel refl enough in
      let st' =
        finish_cycle fl cfg input (all input.registry_all) (length watches_of) (length realtime_of)
          after_tier1.realtime_rtt env d' st in
      (
        st',
        rw (e, poll_cycle) refl,
        λ w m low. elim (t w (bulk-member ok_watches w m low)) [
          | inl (f, c) ↦ inl (
              cell_of-build d'.builder (st.cycle + 1) d'.worst_rtt d'.worst_rtt w.id
              ∙ c
              ∙ bulk-avoided ok_watches w m low)
          | inr (f, (k, c)) ↦
              inr (k, cell_of-build d'.builder (st.cycle + 1) d'.worst_rtt d'.worst_rtt w.id ∙ c)
        ],
      )
