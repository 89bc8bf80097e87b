-- ===== src/Engine/Budget.antt =====
-- The adaptive byte budget: `PollConfig`, and the functions that read and move the estimates.
pub mod Bounds
use sni_lua.Common.Float.{Float, as_u32, as_u128}
use sni_lua.Common.{
  ℕ, ◌-◌, Bool, true, false, not, ◌&&◌, Option, none, some, if◌then◌else◌, ltb, leb, ◌==◌, min, max,
  saturating_add128,
}

-- Durations are in milliseconds.
pub record PollConfig (F : Type 0) : Type 0 where
  pub target_period : ℕ
  pub frame_budget_ms : ℕ
  pub min_byte_budget : ℕ
  pub max_byte_budget : ℕ
  pub coalesce_gap : ℕ
  pub rtt_alpha : F
  pub demand_window : ℕ

-- `u32::clamp`; the call panics where `lo` is above `hi`, and the theorems ask for `lo ≤ hi`
abbrev pub clamp : ℕ → ℕ → ℕ → ℕ
clamp x lo hi = if ltb x lo then lo else if ltb hi x then hi else x

module _ (fl : Float) where
  unfoldable pub default_config : PollConfig fl.F
  default_config = record {
    target_period = 16;
    frame_budget_ms = 16;
    min_byte_budget = 256;
    max_byte_budget = 65536;
    coalesce_gap = 16;
    rtt_alpha = fl.lit 25 100;
    demand_window = 1000;
  }

  abbrev pub throughput_headroom : fl.F
  throughput_headroom = fl.lit 8 10

  unfoldable pub observe_latency_floor : Option fl.F → ℕ → Option fl.F
  observe_latency_floor none rtt_ms = some (fl.of_nat (max rtt_ms 1))
  observe_latency_floor (some floor) rtt_ms = some (fl.min floor (fl.of_nat (max rtt_ms 1)))

  -- `latency_floor_ms.unwrap_or(0.0).floor()`
  unfoldable pub fixed_latency : Option fl.F → fl.F
  fixed_latency none = fl.floor (fl.lit 0 1)
  fixed_latency (some floor) = fl.floor floor

  unfoldable pub budgeted_transfer_ms : ℕ → Option fl.F → ℕ
  unfolding fixed_latency
  budgeted_transfer_ms rtt_ms latency_floor_ms =
      max (rtt_ms - as_u32 fl (fixed_latency latency_floor_ms)) 1

  -- the two branches of `next_budget`, before the clamp
  unfoldable pub cut_budget : ℕ → ℕ → ℕ → fl.F
  cut_budget budget transfer_ms target_transfer_ms =
      let overshoot =
        fl.min (fl.div (fl.of_nat (max transfer_ms 1)) (fl.of_nat target_transfer_ms))
          (fl.lit 4 1) in
      fl.max (fl.mul (fl.of_nat budget) (fl.max (fl.div (fl.lit 5 10) overshoot) (fl.lit 2 10)))
        (fl.lit 0 1)

  unfoldable pub grow_budget : ℕ → Option fl.F → PollConfig fl.F → fl.F
  grow_budget budget throughput cfg =
      let ceil_frame_ms = fl.of_nat (max cfg.frame_budget_ms 1) in
      let b = fl.of_nat budget in
      let ceil : fl.F = elim throughput [
        | none ↦ b
        | some t ↦ fl.mul (fl.mul t ceil_frame_ms) throughput_headroom
      ] in
      let step = fl.max (fl.mul (fl.of_nat cfg.max_byte_budget) (fl.lit 5 100)) (fl.lit 256 1) in
      fl.min (fl.add b step) (fl.max ceil b)

  unfoldable pub next_budget : ℕ → ℕ → Option fl.F → Option fl.F → PollConfig fl.F → ℕ
  unfolding fixed_latency cut_budget grow_budget
  next_budget budget transfer_ms throughput latency_floor_ms cfg =
      let fixed_ms = as_u32 fl (fixed_latency latency_floor_ms) in
      let target_transfer_ms = max (cfg.frame_budget_ms - fixed_ms) 1 in
      let next =
        if ltb target_transfer_ms transfer_ms
        then cut_budget budget transfer_ms target_transfer_ms
        else grow_budget budget throughput cfg in
      clamp (as_u32 fl next) cfg.min_byte_budget cfg.max_byte_budget

  -- `throughput.filter(|tp| tp.is_finite() && *tp > 0.0)`
  unfoldable pub usable : Option fl.F → Option fl.F
  usable none = none
  usable (some tp) = if fl.is_finite tp && fl.gt tp (fl.lit 0 1) then some tp else none

  unfoldable pub budget_for_remaining_time : ℕ → Option fl.F → Option fl.F → ℕ → ℕ → Option ℕ
  unfolding fixed_latency usable
  budget_for_remaining_time budget throughput latency_floor_ms elapsed_ms frame_ms =
      let fixed_ms = as_u128 fl (fixed_latency latency_floor_ms) in
      let remaining_ms = frame_ms - elapsed_ms in
      let transfer_remaining_ms = fl.of_nat (remaining_ms - fixed_ms) in
      if leb frame_ms elapsed_ms
      then none
      else if leb remaining_ms fixed_ms
      then none
      else elim (usable throughput) [
        | none ↦ some budget
        | some tp ↦
            let capped =
              as_u32 fl (fl.floor (fl.mul (fl.mul tp transfer_remaining_ms) throughput_headroom)) in
            if capped == 0 then none else some (min budget (max capped 1))
      ]

  unfoldable pub predicted_transfer_ms : ℕ → Option fl.F → Option ℕ
  unfolding usable
  predicted_transfer_ms bytes throughput = elim (usable throughput) [
    | none ↦ none
    | some tp ↦ some (as_u128 fl (fl.max (fl.ceil (fl.div (fl.of_nat bytes) tp)) (fl.lit 1 1)))
  ]

  unfoldable pub batch_fits_remaining_time : ℕ → Option fl.F → Option fl.F → ℕ → ℕ → Bool
  unfolding fixed_latency predicted_transfer_ms
  batch_fits_remaining_time bytes throughput latency_floor_ms elapsed_ms frame_ms =
      let fixed_ms = as_u128 fl (fixed_latency latency_floor_ms) in
      elim (predicted_transfer_ms bytes throughput) [
        | none ↦ true
        | some predicted ↦
            leb (saturating_add128 (saturating_add128 elapsed_ms fixed_ms) predicted) frame_ms
      ]
