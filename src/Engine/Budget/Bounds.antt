-- ===== src/Engine/Budget/Bounds.antt =====
-- The budget stays between its bounds, whatever the floating-point operations return.
use sni_lua.Common.Float.{Float}
use sni_lua.Common.{ℕ, ◌≤◌, ◌<◌, ◌≡◌, Option, some, arith, min}
use sni_lua.Engine.Budget.{PollConfig, clamp, next_budget, budget_for_remaining_time}

clamp-bounds : (x lo hi : ℕ) → lo ≤ hi → (lo ≤ clamp x lo hi) × (clamp x lo hi ≤ hi)
clamp-bounds x lo hi h = ground arith

-- One step of the adaptive budget, a cut or a growth, ends between the configured bounds.
pub next_budget-bounds :
    (fl : Float) (budget transfer_ms : ℕ) (throughput latency_floor_ms : Option fl.F)
    (cfg : PollConfig fl.F)
    → cfg.min_byte_budget ≤ cfg.max_byte_budget
    → let next = next_budget fl budget transfer_ms throughput latency_floor_ms cfg in
      (cfg.min_byte_budget ≤ next) × (next ≤ cfg.max_byte_budget)
unfolding next_budget
next_budget-bounds fl budget transfer_ms throughput latency_floor_ms cfg h =
    clamp-bounds _ cfg.min_byte_budget cfg.max_byte_budget h

-- A budget trimmed to the rest of the frame is at most the full one, is not 0 unless that is, and
-- is only given while the frame has time left.
pub budget_for_remaining_time-le :
    (fl : Float) (budget : ℕ) (throughput latency_floor_ms : Option fl.F)
    (elapsed_ms frame_ms trimmed : ℕ)
    → budget_for_remaining_time fl budget throughput latency_floor_ms elapsed_ms frame_ms
      ≡ some trimmed
    → (trimmed ≤ budget) × (min budget 1 ≤ trimmed) × (elapsed_ms < frame_ms)
unfolding budget_for_remaining_time
budget_for_remaining_time-le fl budget throughput latency_floor_ms elapsed_ms frame_ms trimmed h =
    ground arith
