-- ===== src/Engine/Cycle.antt =====
-- One turn of the outer loop of `spawn`'s task: the realtime sub-poll, the drain loop, and what is
-- published. The task's variables, and the two cells that it shares, are an `EngineState`.
pub mod Tiers
pub mod Active
pub mod Published
pub mod Realtime
pub mod Budgeted
use sni_lua.Client.{ReadMemoryRequest, Result, ok, err, multi_read}
use sni_lua.Common.Float.{Float}
use sni_lua.Common.Map
use sni_lua.Common.{
  ℕ, ◌+◌, ◌-◌, ◌%◌, Bool, true, false, not, List, [], ◌∷◌, map, Option, none, some, any, retain,
  is_empty, length, if◌then◌else◌, ltb, leb, ◌==◌, min, max, to_u32,
}
use sni_lua.Engine.Apply.{apply_reads}
use sni_lua.Engine.Budget.{PollConfig, observe_latency_floor}
use sni_lua.Engine.Drain.{ErrorClass, classify_err, Round, Drain, DrainEnv, regions_of, drain_loop}
use sni_lua.Engine.Pending.{Requests, ReadStates, PendingSummary, mark_fulfilled, pending_summary}
use sni_lua.Engine.Split.{split_reads_to_budget}
use sni_lua.Snapshot.{Snapshot, SnapshotBuilder, from_prev, retain_only, build, empty}
use sni_lua.Watch.Coalesce.{CoalescedRead, coalesce}
use sni_lua.Watch.Registry.{WatchRegistry, all, active_with_requests}
use sni_lua.Watch.{WatchHandle, is_realtime}

pub record PollStats (F : Type 0) : Type 0 where
  pub cycle : ℕ
  pub watches : ℕ
  pub watches_total : ℕ
  pub reads_last_cycle : ℕ
  pub bytes_last_cycle : ℕ
  pub rtt_ms_ewma : F
  pub last_rtt_ms : ℕ
  pub realtime_watches : ℕ
  pub realtime_rtt_ms : ℕ
  pub budget_capped : Bool
  pub deferred_watches : ℕ
  pub deferred_bytes : ℕ
  pub deferred_oldest_cycles : ℕ
  pub deferred_avg_cycles : F
  pub deferred_bytes_processed_last_cycle : ℕ
  pub deferred_drain_bpms_ewma : F
  pub cycle_elapsed_ms : ℕ
  pub frame_budget_ms : ℕ
  pub frame_budget_overran : Bool
  pub frame_budget_overrun_ms : ℕ
  pub frame_budget_overruns : ℕ
  pub frame_budget_overrun_rate : F
  pub byte_budget : ℕ
  pub throughput_bpms : F
  pub last_error : Option ErrorClass

pub record EngineState (F : Type 0) : Type 0 where
  pub cycle : ℕ
  pub budget : ℕ
  pub throughput : Option F
  pub latency_floor_ms : Option F
  pub deferred_drain_bpms_ewma : F
  pub frame_budget_overruns : ℕ
  pub frame_budget_overrun_rate : F
  pub read_state : ReadStates
  pub current : Snapshot
  pub stats : PollStats F

-- What the cycle meets: the registry at its two looks, the clock, and the console's answers.
pub record CycleInput : Type 0 where
  pub registry_all : WatchRegistry
  pub registry_active : WatchRegistry
  pub now : ℕ
  pub realtime_call : List ReadMemoryRequest → Result (List (List ℕ))
  pub realtime_took_ms : ℕ
  pub rounds : ℕ → Round
  pub elapsed_ms : ℕ

-- what the realtime sub-poll moves
pub record Tier1 (F : Type 0) : Type 0 where
  pub latency_floor_ms : Option F
  pub read_state : ReadStates
  pub builder : SnapshotBuilder
  pub realtime_rtt : ℕ
  pub last_error : Option ErrorClass

abbrev pub requests_of : List (WatchHandle × ℕ) → Requests
requests_of [] = Map.empty
requests_of ((w, seq) ∷ active) = Map.insert w.id seq (requests_of active)

-- `live_ids.contains`
abbrev pub is_live : List WatchHandle → ℕ → Bool
is_live watches id = any (λ w. w.id == id) watches

module _ (fl : Float) where
  -- the `match` on the sub-poll's answer
  unfoldable pub realtime_answer :
      List CoalescedRead → Requests → ℕ → ℕ → Tier1 fl.F → Result (List (List ℕ)) → Tier1 fl.F
  unfolding observe_latency_floor apply_reads mark_fulfilled classify_err
  realtime_answer rt_reads request_seq cycle rtt t (ok blobs) = record t {
    realtime_rtt = rtt;
    latency_floor_ms = observe_latency_floor fl t.latency_floor_ms rtt;
    builder = apply_reads rt_reads blobs t.builder;
    read_state = mark_fulfilled rt_reads request_seq cycle t.read_state;
  }
  realtime_answer rt_reads request_seq cycle rtt t (err e) = record t {
    realtime_rtt = rtt;
    last_error = some (classify_err e);
  }

  unfoldable pub realtime_poll :
      PollConfig fl.F → CycleInput → List WatchHandle → Requests → ℕ → Tier1 fl.F → Tier1 fl.F
  unfolding coalesce multi_read realtime_answer
  realtime_poll cfg input realtime request_seq cycle t =
      let rt_reads = coalesce realtime cfg.coalesce_gap in
      if is_empty realtime
      then t
      else realtime_answer rt_reads request_seq cycle (to_u32 input.realtime_took_ms) t
          (multi_read input.realtime_call (regions_of rt_reads))

  abbrev pub unwrap_or_zero : Option fl.F → fl.F
  unwrap_or_zero none = fl.lit 0 1
  unwrap_or_zero (some x) = x

  unfoldable pub avg_cycles : PendingSummary → fl.F
  avg_cycles p =
      if p.watches == 0 then fl.lit 0 1 else fl.div (fl.of_nat p.age_sum) (fl.of_nat p.watches)

  -- the moving averages: the sample itself in the first cycle
  unfoldable pub overrun_rate : ℕ → Bool → fl.F → fl.F
  overrun_rate cycle overran rate =
      let sample = if overran then fl.lit 1 1 else fl.lit 0 1 in
      if leb cycle 1
      then sample
      else fl.add (fl.mul (fl.lit 5 100) sample) (fl.mul (fl.lit 95 100) rate)

  unfoldable pub drain_rate : ℕ → ℕ → ℕ → fl.F → fl.F
  drain_rate cycle bytes_requested elapsed_ms ewma =
      let sample = fl.div (fl.of_nat bytes_requested) (fl.of_nat (max elapsed_ms 1)) in
      if leb cycle 1
      then sample
      else fl.add (fl.mul (fl.lit 20 100) sample) (fl.mul (fl.lit 80 100) ewma)

  unfoldable pub rtt_rate : PollConfig fl.F → ℕ → fl.F → fl.F
  rtt_rate cfg rtt_ms ewma =
      if fl.eq ewma (fl.lit 0 1)
      then fl.of_nat rtt_ms
      else fl.add (fl.mul cfg.rtt_alpha (fl.of_nat rtt_ms))
          (fl.mul (fl.sub (fl.lit 1 1) cfg.rtt_alpha) ewma)

  -- after the drain loop: the summary, the averages, the snapshot, the stats, and every 256th
  -- cycle the sweep of `read_state`
  unfoldable pub finish_cycle :
      PollConfig fl.F
      → CycleInput
      → List WatchHandle
      → ℕ
      → ℕ
      → ℕ
      → DrainEnv fl.F
      → Drain fl.F
      → EngineState fl.F
      → EngineState fl.F
  unfolding split_reads_to_budget pending_summary build avg_cycles overrun_rate drain_rate rtt_rate
  finish_cycle cfg input all_watches watches realtime_count realtime_rtt env d st =
      let cycle = env.cycle in
      let pending_after =
        pending_summary (split_reads_to_budget env.coalesced_all d.budget) env.request_seq
          d.read_state cycle in
      let cycle_elapsed_ms = to_u32 input.elapsed_ms in
      let frame_budget_ms = max cfg.frame_budget_ms 1 in
      let overran = ltb frame_budget_ms cycle_elapsed_ms in
      let overruns = if overran then st.frame_budget_overruns + 1 else st.frame_budget_overruns in
      let rate = overrun_rate cycle overran st.frame_budget_overrun_rate in
      let drained =
        drain_rate cycle d.bytes_requested cycle_elapsed_ms st.deferred_drain_bpms_ewma in
      record {
        cycle = cycle;
        budget = d.budget;
        throughput = d.throughput;
        latency_floor_ms = d.latency_floor_ms;
        deferred_drain_bpms_ewma = drained;
        frame_budget_overruns = overruns;
        frame_budget_overrun_rate = rate;
        read_state =
            if cycle % 256 == 0
            then Map.retain_keys (is_live all_watches) d.read_state
            else d.read_state;
        current = build d.builder cycle d.worst_rtt d.worst_rtt;
        stats = record {
          cycle = cycle;
          watches = watches;
          watches_total = length all_watches;
          reads_last_cycle = d.reads_issued;
          bytes_last_cycle = d.bytes_requested;
          rtt_ms_ewma = rtt_rate cfg d.worst_rtt st.stats.rtt_ms_ewma;
          last_rtt_ms = d.worst_rtt;
          realtime_watches = realtime_count;
          realtime_rtt_ms = realtime_rtt;
          budget_capped = d.budget_capped;
          deferred_watches = pending_after.watches;
          deferred_bytes = pending_after.bytes;
          deferred_oldest_cycles = pending_after.oldest_cycles;
          deferred_avg_cycles = avg_cycles pending_after;
          deferred_bytes_processed_last_cycle = d.bytes_requested;
          deferred_drain_bpms_ewma = drained;
          cycle_elapsed_ms = cycle_elapsed_ms;
          frame_budget_ms = frame_budget_ms;
          frame_budget_overran = overran;
          frame_budget_overrun_ms = cycle_elapsed_ms - frame_budget_ms;
          frame_budget_overruns = overruns;
          frame_budget_overrun_rate = rate;
          byte_budget = d.budget;
          throughput_bpms = unwrap_or_zero d.throughput;
          last_error = d.last_error;
        };
      }

  -- the variables before the realtime sub-poll
  unfoldable pub begin_cycle : CycleInput → EngineState fl.F → Tier1 fl.F
  unfolding from_prev retain_only all
  begin_cycle input st = record {
    latency_floor_ms = st.latency_floor_ms;
    read_state = st.read_state;
    builder = retain_only (from_prev st.current) (is_live (all input.registry_all));
    realtime_rtt = 0;
    last_error = none;
  }

  unfoldable pub drain_env : PollConfig fl.F → List (WatchHandle × ℕ) → ℕ → DrainEnv fl.F
  unfolding coalesce
  drain_env cfg active cycle =
      let bulk_eligible = retain (λ w. not (is_realtime w.priority)) (map (λ p. p.0) active) in
      record {
        cfg = cfg;
        request_seq = requests_of active;
        coalesced_all = coalesce bulk_eligible cfg.coalesce_gap;
        cycle = cycle;
      }

  -- the variables before the drain loop
  unfoldable pub begin_drain : EngineState fl.F → Tier1 fl.F → Drain fl.F
  begin_drain st t = record {
    budget = st.budget;
    throughput = st.throughput;
    latency_floor_ms = t.latency_floor_ms;
    read_state = t.read_state;
    builder = t.builder;
    bytes_requested = 0;
    reads_issued = 0;
    budget_capped = false;
    worst_rtt = 0;
    done_this_cycle = [];
    last_error = t.last_error;
  }

  -- A cycle with a client; without one the task only sleeps. `none` is want of fuel.
  unfoldable pub poll_cycle :
      ℕ → PollConfig fl.F → CycleInput → EngineState fl.F → Option (EngineState fl.F)
  unfolding begin_cycle realtime_poll drain_env begin_drain drain_loop finish_cycle
      active_with_requests
  poll_cycle fuel cfg input st =
      let cycle = st.cycle + 1 in
      let active = active_with_requests input.registry_active cfg.demand_window input.now in
      let watches = map (λ p. p.0) active in
      let realtime = retain (λ w. is_realtime w.priority) watches in
      let env = drain_env cfg active cycle in
      let t = realtime_poll cfg input realtime env.request_seq cycle (begin_cycle input st) in
      elim (drain_loop fl fuel env input.rounds 0 (begin_drain st t)) [
        | none ↦ none
        | some d ↦ some (
            finish_cycle cfg input (all input.registry_all) (length watches) (length realtime)
              t.realtime_rtt env d st)
      ]

  -- `PollStats::default()`
  unfoldable pub no_stats : PollStats fl.F
  no_stats = record {
    cycle = 0;
    watches = 0;
    watches_total = 0;
    reads_last_cycle = 0;
    bytes_last_cycle = 0;
    rtt_ms_ewma = fl.lit 0 1;
    last_rtt_ms = 0;
    realtime_watches = 0;
    realtime_rtt_ms = 0;
    budget_capped = false;
    deferred_watches = 0;
    deferred_bytes = 0;
    deferred_oldest_cycles = 0;
    deferred_avg_cycles = fl.lit 0 1;
    deferred_bytes_processed_last_cycle = 0;
    deferred_drain_bpms_ewma = fl.lit 0 1;
    cycle_elapsed_ms = 0;
    frame_budget_ms = 0;
    frame_budget_overran = false;
    frame_budget_overrun_ms = 0;
    frame_budget_overruns = 0;
    frame_budget_overrun_rate = fl.lit 0 1;
    byte_budget = 0;
    throughput_bpms = fl.lit 0 1;
    last_error = none;
  }

  -- the task's variables before its first cycle
  unfoldable pub initial : PollConfig fl.F → EngineState fl.F
  unfolding no_stats empty
  initial cfg = record {
    cycle = 0;
    budget = min (max cfg.min_byte_budget 2048) cfg.max_byte_budget;
    throughput = none;
    latency_floor_ms = none;
    deferred_drain_bpms_ewma = fl.lit 0 1;
    frame_budget_overruns = 0;
    frame_budget_overrun_rate = fl.lit 0 1;
    read_state = Map.empty;
    current = empty;
    stats = no_stats;
  }

  -- The outer loop over what its cycles meet, each with its fuel; a cycle without a client, here
  -- `none`, changes nothing.
  unfoldable pub poll_cycles :
      PollConfig fl.F → List (ℕ × Option CycleInput) → EngineState fl.F → Option (EngineState fl.F)
  unfolding poll_cycle
  poll_cycles cfg [] st = some st
  poll_cycles cfg ((fuel, none) ∷ inputs) st = poll_cycles cfg inputs st
  poll_cycles cfg ((fuel, some input) ∷ inputs) st = elim (poll_cycle fuel cfg input st) [
    | none ↦ none
    | some st' ↦ poll_cycles cfg inputs st'
  ]
