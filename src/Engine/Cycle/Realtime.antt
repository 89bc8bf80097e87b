-- ===== src/Engine/Cycle/Realtime.antt =====
-- The realtime watches in the snapshot that a cycle publishes.
use sni_lua.Client.{MemRegion, ok, multi_read}
use sni_lua.Common.Float.{Float}
use sni_lua.Common.{
  ℕ, ◌<◌, ◌+◌, ◌≡◌, refl, ap, ◌∙◌, true, false, not, List, [], ◌∷◌, map, Memᴰ, Memᴰ-retain, length,
  All, All-retain, is_empty, some, to_u32,
}
use sni_lua.Engine.Apply.Cycle.{Serves, applied_reads}
use sni_lua.Engine.Apply.Fresh.{Serves-coalesce, is_read-coalesce}
use sni_lua.Engine.Apply.Slices.{Memory, peek}
use sni_lua.Engine.Budget.{PollConfig}
use sni_lua.Engine.Cycle.Published.{
  watches_of, realtime_of, bulk_of, requests, after_tier1, IsPollable,
}
use sni_lua.Engine.Cycle.Tiers.{Distinct-retain, retained_out, split-Avoids}
use sni_lua.Engine.Cycle.{
  CycleInput, EngineState, Tier1, realtime_answer, realtime_poll, begin_cycle, drain_env,
  begin_drain, finish_cycle, poll_cycle,
}
use sni_lua.Engine.Pending.Marks.{is_read}
use sni_lua.Engine.Drain.Kept.{loop-untouched}
use sni_lua.Engine.Drain.Total.{undone, drain_loop-total}
use sni_lua.Engine.Drain.Trace.{map_regions}
use sni_lua.Engine.Drain.{regions_of}
use sni_lua.Snapshot.Builder.{cell_of, cell_of-build, built, fresh}
use sni_lua.Watch.Coalesce.{CoalescedRead, coalesce}
use sni_lua.Watch.Registry.{all, active_with_requests}
use sni_lua.Watch.{WatchHandle, InRange, is_realtime}

Memᴰ-not_empty : (w : WatchHandle) (ws : List WatchHandle) → Memᴰ w ws → is_empty ws ≡ false
Memᴰ-not_empty w [] m = elim m [ ]
Memᴰ-not_empty w (v ∷ ws) m = refl

module _ (fl : Float) (cfg : PollConfig fl.F) (input : CycleInput) (st : EngineState fl.F)
    (ok_watches : IsPollable fl cfg input st) (mem : Memory)
    (answers : (regions : List MemRegion)
      → multi_read input.realtime_call regions ≡ ok (map (peek mem) regions)) where
  realtime_in_range : All (λ v. InRange v.region) (realtime_of fl cfg input st)
  realtime_in_range = All-retain _ _ (watches_of fl cfg input st) ok_watches.in_range

  answered-fresh :
      (w : WatchHandle) (reads : List CoalescedRead) (t : Tier1 fl.F)
      → All (Serves w.id w.region) reads
      → is_read w.id reads ≡ true
      → built
          (realtime_answer fl reads
            (requests fl cfg input st)
            (st.cycle + 1)
            (to_u32 input.realtime_took_ms)
            t
            (multi_read input.realtime_call (regions_of reads))).builder
          w.id
        ≡ fresh w.region (peek mem w.region)
  unfolding realtime_answer
  answered-fresh w reads t s r =
      rw (answers (regions_of reads) ∙ ap ok (map_regions mem reads))
        (applied_reads w.id w.region mem reads t.builder s ∙ rw r refl)

  tier1-fresh :
      (w : WatchHandle)
      → Memᴰ w (realtime_of fl cfg input st)
      → built (after_tier1 fl cfg input st).builder w.id ≡ fresh w.region (peek mem w.region)
  unfolding realtime_poll
  tier1-fresh w m =
      rw (Memᴰ-not_empty w (realtime_of fl cfg input st) m, realtime_poll)
        (answered-fresh w (coalesce (realtime_of fl cfg input st) cfg.coalesce_gap)
          (begin_cycle fl input st)
          (Serves-coalesce w (realtime_of fl cfg input st) cfg.coalesce_gap realtime_in_range
            (Distinct-retain _ (watches_of fl cfg input st) ok_watches.distinct) m)
          (is_read-coalesce w (realtime_of fl cfg input st) cfg.coalesce_gap realtime_in_range m))

  -- If the sub-poll is answered with the console's memory, every active realtime watch holds that
  -- memory at its own region, with age 0, in the snapshot that the cycle publishes, whatever
  -- becomes of the bulk reads; for active watches with distinct ids that end below 2 ^ 32, and fuel
  -- for each requested watch and one turn more.
  pub poll_cycle-realtime :
      (fuel : ℕ)
      → undone (requests fl cfg input st) [] < fuel
      → (st' : EngineState fl.F) × (poll_cycle fl fuel cfg input st ≡ some st')
        × ((w : WatchHandle)
            → Memᴰ w (watches_of fl cfg input st)
            → is_realtime w.priority ≡ true
            → cell_of st'.current w.id ≡ fresh w.region (peek mem w.region))
  unfolding poll_cycle drain_env begin_drain finish_cycle
  poll_cycle-realtime fuel enough =
      let watches = watches_of fl cfg input st in
      let active = active_with_requests input.registry_active cfg.demand_window input.now in
      let env = drain_env fl cfg active (st.cycle + 1) in
      let t = after_tier1 fl cfg input st in
      let (d', e) = drain_loop-total fl env input.rounds fuel 0 (begin_drain fl st t) enough in
      let st' =
        finish_cycle fl cfg input (all input.registry_all) (length watches)
          (length (realtime_of fl cfg input st)) t.realtime_rtt env d' st in
      (
        st',
        rw (e, poll_cycle) refl,
        λ w m high.
            let out : not (is_realtime w.priority) ≡ false = rw high refl in
            cell_of-build d'.builder (st.cycle + 1) d'.worst_rtt d'.worst_rtt w.id
            ∙ loop-untouched fl env input.rounds w.id
                (λ budget.
                  split-Avoids w.id (bulk_of fl cfg input st) cfg.coalesce_gap budget
                    (All-retain _ _ watches ok_watches.in_range)
                    (retained_out (λ v. not (is_realtime v.priority)) w watches ok_watches.distinct
                      m out))
                fuel 0 (begin_drain fl st t) d' e
            ∙ tier1-fresh w (Memᴰ-retain (λ v. is_realtime v.priority) w watches high m),
      )
