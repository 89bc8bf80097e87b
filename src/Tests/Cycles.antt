-- ===== src/Tests/Cycles.antt =====
-- Turns of the drain loop, and a whole cycle, at concrete inputs.
use sni_lua.Client.{MemRegion, ReadMemoryRequest, to_read_req, Result, ok, multi_read}
use sni_lua.Common.IdSet.{contains}
use sni_lua.Common.Map
use sni_lua.Common.{
  ℕ, ◌+◌, ◌<◌, ◌≡◌, ◌≢◌, refl, ap, List, [], ◌∷◌, map, Option, none, some, Memᴰ, true, false, ◌⊎◌,
  inl, arith, is_empty, leb, max,
}
use sni_lua.Engine.Apply.Slices.{bytes_from, peek}
use sni_lua.Engine.Budget.{PollConfig}
use sni_lua.Engine.Cycle.Published.{carried, watches_of, IsPollable, poll_cycle-published}
use sni_lua.Engine.Cycle.{
  PollStats, EngineState, CycleInput, requests_of, initial, poll_cycle, poll_cycles,
}
use sni_lua.Engine.Cycle.Realtime.{poll_cycle-realtime}
use sni_lua.Engine.Cycle.Budgeted.{poll_cycles-InBounds}
use sni_lua.Engine.Drain.Kept.{InBounds}
use sni_lua.Engine.Drain.Progress.{drain_round-progress}
use sni_lua.Engine.Drain.Total.{undone, drain_loop-total}
use sni_lua.Engine.Drain.Trace.{Answers, Traced, drain_loop-Traced}
use sni_lua.Engine.Drain.{Round, Drain, DrainEnv, pending_reads, drain_round, drain_loop}
use sni_lua.Engine.Pending.{read_is_pending}
use sni_lua.Engine.Split.{split_reads_to_budget, split_read}
use sni_lua.Snapshot.Builder.{cell_of, built, fresh}
use sni_lua.Snapshot.{Snapshot}
use sni_lua.Tests.Data.{at, health, two, two_in_range, two_distinct, registry, console, whole}
use sni_lua.Watch.Coalesce.{coalesce}
use sni_lua.Watch.Registry.{active_with_requests}
use sni_lua.Watch.{WatchHandle, is_realtime}

abbrev served : ReadMemoryRequest → List ℕ
served r = bytes_from (λ a. a + 7) r.request_address r.size

abbrev serve : List ReadMemoryRequest → Result (List (List ℕ))
serve reqs = ok (map served reqs)

abbrev round : Round
round = record { elapsed_ms = 20; call = serve; took_ms = 5; elapsed_after_ms = 25 }

served-regions :
    (regions : List MemRegion) → map served (map to_read_req regions) ≡ map (peek console) regions
unfolding to_read_req
served-regions [] = refl
served-regions (r ∷ rs) = ap (λ l. peek console r ∷ l) (served-regions rs)

serve-Answers : Answers console round
unfolding multi_read
serve-Answers regions = inl (ap ok (served-regions regions))

abbrev config : PollConfig ℕ
config = record {
  target_period = 16;
  frame_budget_ms = 16;
  min_byte_budget = 256;
  max_byte_budget = 65536;
  coalesce_gap = 16;
  rtt_alpha = 0;
  demand_window = 95;
}

abbrev env : DrainEnv ℕ
env = record {
  cfg = config;
  request_seq = (0, 4) ∷ (1, 5) ∷ [];
  coalesced_all = coalesce two 16;
  cycle = 9;
}

abbrev before : Drain ℕ
before = record {
  budget = 256;
  throughput = none;
  latency_floor_ms = none;
  read_state = [];
  builder = record { bytes_of = []; regions = []; age_cycles = [] };
  bytes_requested = 0;
  reads_issued = 0;
  budget_capped = false;
  worst_rtt = 0;
  done_this_cycle = [];
  last_error = none;
}

two_undone : undone env.request_seq [] < 3
unfolding undone contains
two_undone = omega arith

drain_loop-total_example : (d' : Drain ℕ) × (drain_loop whole 3 env (λ i. round) 0 before ≡ some d')
drain_loop-total_example = drain_loop-total whole env (λ i. round) 3 0 before two_undone

drain_loop-Traced_example :
    (d' : Drain ℕ) × (drain_loop whole 3 env (λ i. round) 0 before ≡ some d')
    × ((w : WatchHandle)
        → Memᴰ w two
        → Traced
            (λ k. console)
            w
            (built before.builder w.id)
            d'.done_this_cycle
            (built d'.builder w.id))
drain_loop-Traced_example =
    drain_loop-Traced whole env (λ i. round) (λ k. console) (λ k. serve-Answers) two 16 refl
      two_in_range two_distinct before 3 refl two_undone

serves :
    (regions : List MemRegion) → (blobs : List (List ℕ)) × (multi_read serve regions ≡ ok blobs)
unfolding multi_read
serves regions = (map served (map to_read_req regions), refl)

abbrev idle : Snapshot
idle = record {
  bytes_of = (0, 1 ∷ 2 ∷ []) ∷ [];
  regions = (0, at 0x100 2) ∷ [];
  age_cycles = (0, 3) ∷ [];
  cycle = 8;
  age_ms = 1;
  last_rtt_ms = 1;
}

abbrev stats : PollStats ℕ
stats = record {
  cycle = 8;
  watches = 0;
  watches_total = 0;
  reads_last_cycle = 0;
  bytes_last_cycle = 0;
  rtt_ms_ewma = 0;
  last_rtt_ms = 0;
  realtime_watches = 0;
  realtime_rtt_ms = 0;
  budget_capped = false;
  deferred_watches = 0;
  deferred_bytes = 0;
  deferred_oldest_cycles = 0;
  deferred_avg_cycles = 0;
  deferred_bytes_processed_last_cycle = 0;
  deferred_drain_bpms_ewma = 0;
  cycle_elapsed_ms = 0;
  frame_budget_ms = 16;
  frame_budget_overran = false;
  frame_budget_overrun_ms = 0;
  frame_budget_overruns = 0;
  frame_budget_overrun_rate = 0;
  byte_budget = 0;
  throughput_bpms = 0;
  last_error = none;
}

abbrev engine : EngineState ℕ
engine = record {
  cycle = 8;
  budget = 256;
  throughput = none;
  latency_floor_ms = none;
  deferred_drain_bpms_ewma = 0;
  frame_budget_overruns = 0;
  frame_budget_overrun_rate = 0;
  read_state = [];
  current = idle;
  stats = stats;
}

abbrev input : CycleInput
input = record {
  registry_all = registry;
  registry_active = registry;
  now = 100;
  realtime_call = serve;
  realtime_took_ms = 4;
  rounds = λ i. round;
  elapsed_ms = 30;
}

input-IsPollable : IsPollable whole config input engine
unfolding active_with_requests
input-IsPollable = record {
  in_range = (
    record { fits = omega arith },
    (record { fits = omega arith }, (record { fits = omega arith }, tt)),
  );
  distinct = ((refl, (refl, tt)), ((refl, tt), (tt, tt)));
}

abbrev poll : EngineState ℕ → Option (EngineState ℕ)
poll = poll_cycle whole 4 config input

all_undone : undone (requests_of (active_with_requests registry 95 100)) [] < 4
unfolding undone contains active_with_requests Map.insert
all_undone = omega arith

poll_cycle-published_example :
    (st' : EngineState ℕ) × (poll engine ≡ some st')
    × ((w : WatchHandle)
        → Memᴰ w (watches_of whole config input engine)
        → is_realtime w.priority ≡ false
        → (cell_of st'.current w.id ≡ carried input engine w.id)
          ⊎ ((k : ℕ) × (cell_of st'.current w.id ≡ fresh w.region (peek console w.region))))
poll_cycle-published_example =
    poll_cycle-published whole config input engine input-IsPollable (λ k. console)
      (λ k. serve-Answers) 4 all_undone

serve-ok : (regions : List MemRegion) → multi_read serve regions ≡ ok (map (peek console) regions)
unfolding multi_read
serve-ok regions = ap ok (served-regions regions)

poll_cycle-realtime_example :
    (st' : EngineState ℕ) × (poll engine ≡ some st')
    × ((w : WatchHandle)
        → Memᴰ w (watches_of whole config input engine)
        → is_realtime w.priority ≡ true
        → cell_of st'.current w.id ≡ fresh w.region (peek console w.region))
poll_cycle-realtime_example =
    poll_cycle-realtime whole config input engine input-IsPollable console serve-ok 4 all_undone

start-IsPollable : IsPollable whole config input (initial whole config)
start-IsPollable = record {
  in_range = input-IsPollable.in_range;
  distinct = input-IsPollable.distinct;
}

abbrev first_cycle : (st' : EngineState ℕ) × (poll (initial whole config) ≡ some st')
first_cycle =
    let (st', e, f) =
      poll_cycle-realtime whole config input (initial whole config) start-IsPollable console
        serve-ok 4 all_undone in
    (st', e)

-- a cycle with a client, after one without
abbrev two_cycles : List (ℕ × Option CycleInput)
two_cycles = (0, none) ∷ (4, some input) ∷ []

two_cycles_end : poll_cycles whole config two_cycles (initial whole config) ≡ some first_cycle.0
unfolding poll_cycles
two_cycles_end = rw (first_cycle.1, poll_cycles) refl

poll_cycles-InBounds_example :
    (st' : EngineState ℕ) × (poll_cycles whole config two_cycles (initial whole config) ≡ some st')
    × InBounds config st'.budget
poll_cycles-InBounds_example =
    poll_cycles-InBounds whole config (omega arith) two_cycles (tt, (all_undone, tt))

-- one read of one watch, which is pending however it is split
abbrev one_env : DrainEnv ℕ
one_env = record env {
  coalesced_all =
      record { region = at 0x100 1; members = (0, 0, 1) ∷ []; priority = health.priority } ∷ [];
}

one_pending : (budget : ℕ) → pending_reads whole one_env budget before ≢ []
unfolding pending_reads split_reads_to_budget split_read read_is_pending contains Map.get
one_pending budget e =
    let f : leb 1 (max budget 1) ≡ true = ground arith in
    let q = (rw (pending_reads, split_reads_to_budget, split_read, f) at (ap is_empty e)) in
    ground (arith, q)

drain_round-progress_example : (drain_round whole one_env round before).0.reads_issued ≡ 1
drain_round-progress_example =
    drain_round-progress whole one_env round before serves one_pending refl
