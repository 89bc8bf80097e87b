-- ===== src/Engine/Cycle/Budgeted.antt =====
-- The byte budget over any number of cycles.
use sni_lua.Common.Float.{Float}
use sni_lua.Common.{
  ℕ, ◌+◌, ◌≤◌, ◌<◌, ◌≡◌, refl, All, length, subst, List, [], ◌∷◌, map, retain, Option, none, some,
  Option-cases, inl, inr, arith,
}
use sni_lua.Engine.Budget.{PollConfig}
use sni_lua.Engine.Cycle.{
  CycleInput, EngineState, initial, poll_cycle, poll_cycles, drain_env, begin_drain, realtime_poll,
  begin_cycle, finish_cycle, requests_of,
}
use sni_lua.Engine.Drain.Kept.{InBounds, drain_loop-InBounds}
use sni_lua.Engine.Drain.Total.{undone, drain_loop-total}
use sni_lua.Engine.Drain.{drain_loop}
use sni_lua.Watch.Registry.{active_with_requests, all}
use sni_lua.Watch.{is_realtime}

module _ (fl : Float) (cfg : PollConfig fl.F)
    (ordered : cfg.min_byte_budget ≤ cfg.max_byte_budget) where
  some_injective :
      {a b : EngineState fl.F} → Path (Option (EngineState fl.F)) (some a) (some b) → a ≡ b
  some_injective p = ground (arith, p)

  cycle-InBounds :
      (fuel : ℕ) (input : CycleInput) (st st' : EngineState fl.F)
      → InBounds cfg st.budget
      → poll_cycle fl fuel cfg input st ≡ some st'
      → InBounds cfg st'.budget
  unfolding poll_cycle begin_drain finish_cycle drain_env
  cycle-InBounds fuel input st st' b h =
      let active = active_with_requests input.registry_active cfg.demand_window input.now in
      let env = drain_env fl cfg active (st.cycle + 1) in
      let watches = map (λ p. p.0) active in
      let t =
        realtime_poll fl cfg input (retain (λ w. is_realtime w.priority) watches) env.request_seq
          (st.cycle + 1) (begin_cycle fl input st) in
      elim (Option-cases (drain_loop fl fuel env input.rounds 0 (begin_drain fl st t))) [
        | inl e ↦ let no : none ≡ some st' = (rw (poll_cycle, e) at h) in ground (arith, no)
        | inr (d, e) ↦
            subst (λ x. InBounds cfg x.budget) (some_injective (rw (poll_cycle, e) at h))
              (drain_loop-InBounds fl env input.rounds ordered fuel 0 (begin_drain fl st t) d b e)
      ]

  -- fuel for each watch that is requested in a cycle, and for one turn more
  abbrev pub HasFuel : ℕ × Option CycleInput → Type 0
  HasFuel (fuel, none) = Unit {0}
  HasFuel (fuel, some input) =
      undone (requests_of (active_with_requests input.registry_active cfg.demand_window input.now))
        []
      < fuel

  poll_cycle-total :
      (fuel : ℕ) (input : CycleInput) (st : EngineState fl.F)
      → HasFuel (fuel, some input)
      → (st' : EngineState fl.F) × (poll_cycle fl fuel cfg input st ≡ some st')
  unfolding poll_cycle begin_drain drain_env
  poll_cycle-total fuel input st enough =
      let active = active_with_requests input.registry_active cfg.demand_window input.now in
      let env = drain_env fl cfg active (st.cycle + 1) in
      let watches = map (λ p. p.0) active in
      let t =
        realtime_poll fl cfg input (retain (λ w. is_realtime w.priority) watches) env.request_seq
          (st.cycle + 1) (begin_cycle fl input st) in
      let (d, e) = drain_loop-total fl env input.rounds fuel 0 (begin_drain fl st t) enough in
      (
        finish_cycle fl cfg input (all input.registry_all) (length watches)
            (length (retain (λ w. is_realtime w.priority) watches)) t.realtime_rtt env d st,
        rw (e, poll_cycle) refl,
      )

  cycles-InBounds :
      (inputs : List (ℕ × Option CycleInput)) (st : EngineState fl.F)
      → All HasFuel inputs
      → InBounds cfg st.budget
      → (st' : EngineState fl.F) × (poll_cycles fl cfg inputs st ≡ some st')
        × InBounds cfg st'.budget
  unfolding poll_cycles
  cycles-InBounds [] st f b = (st, refl, b)
  cycles-InBounds ((fuel, none) ∷ inputs) st f b = cycles-InBounds inputs st f.1 b
  cycles-InBounds ((fuel, some input) ∷ inputs) st f b =
      let (st1, e) = poll_cycle-total fuel input st f.0 in
      let (st', q, v) = cycles-InBounds inputs st1 f.1 (cycle-InBounds fuel input st st1 b e) in
      (st', rw (e, poll_cycles) q, v)

  -- With a least byte budget that is not above the greatest, and with fuel in each cycle for each watch
  -- requested in it and one turn more, any cycles from the first one on end, and the byte budget that
  -- they leave lies between the configured bounds: with one configuration, whatever the clock, the
  -- service and the floating-point operations return, with cycles that have no client among them.
  pub poll_cycles-InBounds :
      (inputs : List (ℕ × Option CycleInput))
      → All HasFuel inputs
      → (st' : EngineState fl.F) × (poll_cycles fl cfg inputs (initial fl cfg) ≡ some st')
        × InBounds cfg st'.budget
  unfolding initial
  poll_cycles-InBounds inputs f = cycles-InBounds inputs (initial fl cfg) f (omega (arith, ordered))
