-- ===== src/Engine/Drain.antt =====
-- The bulk drain loop of `spawn`'s task. What the clock and the console answer in one turn of the
-- loop is a `Round`; the loop runs over the rounds, on fuel.
pub mod Turn
pub mod Total
pub mod Trace
pub mod Progress
pub mod Kept
use sni_lua.Client.{MemRegion, ReadMemoryRequest, SniError, Result, ok, err, multi_read}
use sni_lua.Common.Float.{Float}
use sni_lua.Common.IdSet.{IdSet}
use sni_lua.Common.{
  ℕ, zero, suc, ◌+◌, Bool, true, false, not, ◌&&◌, ◌||◌, List, [], ◌∷◌, map, Option, none, some,
  retain, is_empty, if◌then◌else◌, leb, ◌==◌, max, add32, to_u32, saturating_add32,
}
use sni_lua.Engine.Apply.{apply_reads}
use sni_lua.Engine.Budget.{
  PollConfig, observe_latency_floor, budgeted_transfer_ms, next_budget, budget_for_remaining_time,
  batch_fits_remaining_time,
}
use sni_lua.Engine.Pending.{Requests, ReadStates, read_is_pending, mark_fulfilled, mark_done}
use sni_lua.Engine.Select.{BulkSelection, select_bulk}
use sni_lua.Engine.Split.{split_reads_to_budget}
use sni_lua.Snapshot.{SnapshotBuilder}
use sni_lua.Watch.Coalesce.{CoalescedRead}

pub data ErrorClass : Type 0 where
  transport rpc no_devices device_gone empty_response : ErrorClass

unfoldable pub classify_err : SniError → ErrorClass
classify_err (SniError.transport e) = transport
classify_err (SniError.status e) = rpc
classify_err SniError.no_devices = no_devices
classify_err (SniError.device_not_found uri) = device_gone
classify_err SniError.empty_response = empty_response

pub record Round : Type 0 where
  -- `cycle_start.elapsed()` at the head of the loop
  pub elapsed_ms : ℕ
  -- the service's answer to the read of this turn
  pub call : List ReadMemoryRequest → Result (List (List ℕ))
  -- `t0.elapsed()` after it
  pub took_ms : ℕ
  -- `cycle_start.elapsed()` at the end
  pub elapsed_after_ms : ℕ

-- the loop's variables
pub record Drain (F : Type 0) : Type 0 where
  pub budget : ℕ
  pub throughput : Option F
  pub latency_floor_ms : Option F
  pub read_state : ReadStates
  pub builder : SnapshotBuilder
  pub bytes_requested : ℕ
  pub reads_issued : ℕ
  pub budget_capped : Bool
  pub worst_rtt : ℕ
  pub done_this_cycle : IdSet
  pub last_error : Option ErrorClass

-- `map(|r| r.size).sum()`, wrapping
unfoldable pub sum_sizes : List CoalescedRead → ℕ
sum_sizes [] = 0
sum_sizes (r ∷ rs) = add32 r.region.size (sum_sizes rs)

abbrev pub regions_of : List CoalescedRead → List MemRegion
regions_of = map (λ r. r.region)

-- what one turn works with
pub record DrainEnv (F : Type 0) : Type 0 where
  pub cfg : PollConfig F
  pub request_seq : Requests
  pub coalesced_all : List CoalescedRead
  pub cycle : ℕ

module _ (fl : Float) where
  abbrev pub frame_ms : PollConfig fl.F → ℕ
  frame_ms cfg = max cfg.frame_budget_ms 1

  -- `match throughput { .. }`
  unfoldable pub next_throughput : PollConfig fl.F → Option fl.F → fl.F → fl.F
  next_throughput cfg none inst_bpms = inst_bpms
  next_throughput cfg (some tp) inst_bpms =
      fl.add (fl.mul cfg.rtt_alpha inst_bpms) (fl.mul (fl.sub (fl.lit 1 1) cfg.rtt_alpha) tp)

  -- the `Ok` arm, up to its test
  unfoldable pub succeed :
      DrainEnv fl.F → Round → List CoalescedRead → List (List ℕ) → Drain fl.F → Drain fl.F
  unfolding sum_sizes next_throughput observe_latency_floor budgeted_transfer_ms next_budget
      mark_fulfilled mark_done apply_reads
  succeed env round reads blobs d =
      let bytes = sum_sizes reads in
      let rtt = to_u32 round.took_ms in
      let budget_ms = budgeted_transfer_ms fl rtt d.latency_floor_ms in
      let latency_floor_ms = observe_latency_floor fl d.latency_floor_ms rtt in
      let inst_bpms = fl.div (fl.of_nat bytes) (fl.of_nat budget_ms) in
      let throughput = some (next_throughput env.cfg d.throughput inst_bpms) in
      record d {
        budget = next_budget fl d.budget budget_ms throughput latency_floor_ms env.cfg;
        throughput = throughput;
        latency_floor_ms = latency_floor_ms;
        read_state = mark_fulfilled reads env.request_seq env.cycle d.read_state;
        builder = apply_reads reads blobs d.builder;
        bytes_requested = saturating_add32 d.bytes_requested bytes;
        reads_issued = d.reads_issued + 1;
        worst_rtt = max d.worst_rtt rtt;
        done_this_cycle = mark_done reads d.done_this_cycle;
      }

  -- the `Err` arm
  unfoldable pub fail : Round → SniError → Drain fl.F → Drain fl.F
  unfolding classify_err
  fail round e d = record d {
    worst_rtt = max d.worst_rtt (to_u32 round.took_ms);
    last_error = some (classify_err e);
  }

  -- The read and its `match`: the variables after it, and whether the loop goes on.
  unfoldable pub issue : DrainEnv fl.F → Round → List CoalescedRead → Drain fl.F → Drain fl.F × Bool
  unfolding succeed fail multi_read
  issue env round reads d = elim (multi_read round.call (regions_of reads)) [
    | ok blobs ↦
        let stops = leb (frame_ms env.cfg) (round.elapsed_after_ms + to_u32 round.took_ms) in
        (succeed env round reads blobs d, not stops)
    | err e ↦ (fail round e d, false)
  ]

  unfoldable pub pending_reads : DrainEnv fl.F → ℕ → Drain fl.F → List CoalescedRead
  unfolding split_reads_to_budget read_is_pending
  pending_reads env iter_budget d =
      retain (λ r. read_is_pending r env.request_seq d.read_state d.done_this_cycle)
        (split_reads_to_budget env.coalesced_all iter_budget)

  -- the test of `sel.reads.is_empty()` and what follows it
  unfoldable pub offer :
      DrainEnv fl.F → Round → Bool → BulkSelection → Drain fl.F → Drain fl.F × Bool
  unfolding issue sum_sizes batch_fits_remaining_time
  offer env round force_progress sel d =
      let d' : Drain fl.F = record d { budget_capped = d.budget_capped || sel.capped } in
      let fits =
        batch_fits_remaining_time fl (sum_sizes sel.reads) d.throughput d.latency_floor_ms
          round.elapsed_ms (frame_ms env.cfg) in
      if is_empty sel.reads
      then (d, false)
      else if not force_progress && not fits
      then (d', false)
      else issue env round sel.reads d'

  -- a turn that has a budget
  unfoldable pub with_budget : DrainEnv fl.F → Round → Bool → ℕ → Drain fl.F → Drain fl.F × Bool
  unfolding pending_reads offer select_bulk
  with_budget env round force_progress iter_budget d =
      let pending = pending_reads env iter_budget d in
      let sel = select_bulk pending iter_budget d.read_state env.cycle in
      if is_empty pending then (d, false) else offer env round force_progress sel d

  -- One turn of the loop: the variables after it, and whether the loop goes on.
  unfoldable pub drain_round : DrainEnv fl.F → Round → Drain fl.F → Drain fl.F × Bool
  unfolding with_budget budget_for_remaining_time
  drain_round env round d =
      let force_progress = d.reads_issued == 0 in
      let trimmed =
        budget_for_remaining_time fl d.budget d.throughput d.latency_floor_ms round.elapsed_ms
          (frame_ms env.cfg) in
      if leb (frame_ms env.cfg) round.elapsed_ms && not force_progress
      then (d, false)
      else elim trimmed [
        | some iter_budget ↦ with_budget env round force_progress iter_budget d
        | none ↦
            if force_progress then with_budget env round force_progress d.budget d else (d, false)
      ]

  -- The loop over the rounds from the `i`-th on; `none` is want of fuel.
  unfoldable pub drain_loop : ℕ → DrainEnv fl.F → (ℕ → Round) → ℕ → Drain fl.F → Option (Drain fl.F)
  unfolding drain_round
  drain_loop zero env rounds i d = none
  drain_loop (suc fuel) env rounds i d =
      let turn = drain_round env (rounds i) d in
      let rest = drain_loop fuel env rounds (suc i) turn.0 in if turn.1 then rest else some turn.0
