-- ===== src/Circuit/Invariant.antt =====
-- What holds of a breaker between two calls.
use agent_auth.Prelude.{ℕ, ◌<◌, ◌≡◌, refl, sym, subst, ◌∙◌, ◌≢◌, none, List, [], ◌∷◌, arith}
use agent_auth.Circuit.{
  closed, half_open, CircuitBreakerConfig, DependencyCircuitBreaker, Call, asks_state, asks_permit,
  succeeds, fails, u32_mod, new, step, run,
}

-- Thresholds that are positive and fit their 32 bits.
pub record IsConfig (c : CircuitBreakerConfig) : Type 0 where
  pub failures_pos : 0 < c.failure_threshold
  pub failures_fit : c.failure_threshold < u32_mod
  pub successes_pos : 0 < c.success_threshold
  pub successes_fit : c.success_threshold < u32_mod

-- The instant of opening is known exactly outside the closed state; a closed breaker is short of
-- its failure threshold and a half-open one short of its success threshold.
pub record Inv (cb : DependencyCircuitBreaker) : Type 0 where
  pub opened_none : cb.state ≡ closed → cb.opened_at ≡ none
  pub opened_some : cb.state ≢ closed → cb.opened_at ≢ none
  pub failures_short : cb.state ≡ closed → cb.failure_count < cb.config.failure_threshold
  pub successes_short : cb.state ≡ half_open → cb.success_count < cb.config.success_threshold

pub new-Inv : (c : CircuitBreakerConfig) (now : ℕ) → IsConfig c → Inv (new c now)
unfolding new
new-Inv c now v = ground arith

pub config-step : (cb : DependencyCircuitBreaker) (c : Call) → (step cb c).config ≡ cb.config
unfolding step
config-step cb (asks_state now) = ground arith
config-step cb (asks_permit now) = ground arith
config-step cb (succeeds now) = ground arith
config-step cb (fails now later) = ground arith

pub step-Inv :
    (cb : DependencyCircuitBreaker) (c : Call) → IsConfig cb.config → Inv cb → Inv (step cb c)
unfolding step
step-Inv cb (asks_state now) v h = ground arith
step-Inv cb (asks_permit now) v h = ground arith
step-Inv cb (succeeds now) v h = ground arith
step-Inv cb (fails now later) v h = ground arith

-- The invariant holds of a new breaker and after any calls on it, at any readings of the clock.
pub run-Inv :
    (cb : DependencyCircuitBreaker) (cs : List Call)
    → IsConfig cb.config
    → Inv cb
    → Inv (run cb cs) × ((run cb cs).config ≡ cb.config)
unfolding run
run-Inv cb [] v h = (h, refl)
run-Inv cb (c ∷ cs) v h =
    let (h', e) =
      run-Inv (step cb c) cs (subst IsConfig (sym (config-step cb c)) v) (step-Inv cb c v h) in
    (h', e ∙ config-step cb c)

-- With positive thresholds that fit 32 bits, after any calls on a new breaker, at any readings of the
-- clock: the instant of opening is known exactly outside the closed state, a closed breaker is short
-- of its failure threshold and a half-open one short of its success threshold.
pub run-new-Inv :
    (c : CircuitBreakerConfig) (now : ℕ) (cs : List Call) → IsConfig c → Inv (run (new c now) cs)
run-new-Inv c now cs v = (run-Inv (new c now) cs (unfold new in v) (new-Inv c now v)).0
