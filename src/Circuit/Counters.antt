-- ===== src/Circuit/Counters.antt =====
-- The totals that the metrics read.
use agent_auth.Prelude.{ℕ, suc, ◌+◌, ◌%◌, ◌≤◌, ◌<◌, ◌≡◌, List, [], ◌∷◌, arith}
use agent_auth.Circuit.{
  DependencyCircuitBreaker, CircuitBreakerConfig, Call, asks_state, asks_permit, succeeds, fails,
  u64_mod, new, step, run,
}

-- The calls that record an outcome, and those that record a failure.
abbrev pub recorded : List Call → ℕ
recorded [] = 0
recorded (asks_state _ ∷ cs) = recorded cs
recorded (asks_permit _ ∷ cs) = recorded cs
recorded (succeeds _ ∷ cs) = suc (recorded cs)
recorded (fails _ _ ∷ cs) = suc (recorded cs)

abbrev pub failed : List Call → ℕ
failed [] = 0
failed (asks_state _ ∷ cs) = failed cs
failed (asks_permit _ ∷ cs) = failed cs
failed (succeeds _ ∷ cs) = failed cs
failed (fails _ _ ∷ cs) = suc (failed cs)

failed-le-recorded : (cs : List Call) → failed cs ≤ recorded cs
failed-le-recorded [] = omega arith
failed-le-recorded (asks_state _ ∷ cs) = failed-le-recorded cs
failed-le-recorded (asks_permit _ ∷ cs) = failed-le-recorded cs
failed-le-recorded (succeeds _ ∷ cs) = omega (arith, failed-le-recorded cs)
failed-le-recorded (fails _ _ ∷ cs) = omega (arith, failed-le-recorded cs)

recorded-cons : (c : Call) (cs : List Call) → recorded (c ∷ cs) ≡ recorded (c ∷ []) + recorded cs
recorded-cons (asks_state _) cs = omega arith
recorded-cons (asks_permit _) cs = omega arith
recorded-cons (succeeds _) cs = omega arith
recorded-cons (fails _ _) cs = omega arith

failed-cons : (c : Call) (cs : List Call) → failed (c ∷ cs) ≡ failed (c ∷ []) + failed cs
failed-cons (asks_state _) cs = omega arith
failed-cons (asks_permit _) cs = omega arith
failed-cons (succeeds _) cs = omega arith
failed-cons (fails _ _) cs = omega arith

step_totals :
    (cb : DependencyCircuitBreaker) (c : Call)
    → cb.total_calls < u64_mod
    → cb.total_failures < u64_mod
    → ((step cb c).total_calls ≡ (cb.total_calls + recorded (c ∷ [])) % u64_mod)
      × ((step cb c).total_failures ≡ (cb.total_failures + failed (c ∷ [])) % u64_mod)
unfolding step
step_totals cb (asks_state now) h k = ground arith
step_totals cb (asks_permit now) h k = ground arith
step_totals cb (succeeds now) h k = ground arith
step_totals cb (fails now later) h k = ground arith

run_totals :
    (cb : DependencyCircuitBreaker) (cs : List Call)
    → cb.total_calls < u64_mod
    → cb.total_failures < u64_mod
    → ((run cb cs).total_calls ≡ (cb.total_calls + recorded cs) % u64_mod)
      × ((run cb cs).total_failures ≡ (cb.total_failures + failed cs) % u64_mod)
unfolding run
run_totals cb [] h k = (omega arith, omega arith)
run_totals cb (c ∷ cs) h k =
    let s = step_totals cb c h k in
    let r = run_totals (step cb c) cs (omega (arith, s)) (omega (arith, s)) in
    (omega (arith, s, r, recorded-cons c cs), omega (arith, s, r, failed-cons c cs))

-- As long as fewer than 2^64 outcomes are recorded, the totals of a breaker are their exact
-- numbers, and there are no more failures than calls.
pub totals_exact :
    (c : CircuitBreakerConfig) (now : ℕ) (cs : List Call)
    → recorded cs < u64_mod
    → ((run (new c now) cs).total_calls ≡ recorded cs)
      × ((run (new c now) cs).total_failures ≡ failed cs)
      × ((run (new c now) cs).total_failures ≤ (run (new c now) cs).total_calls)
unfolding new
totals_exact c now cs h =
    omega (arith, run_totals (new c now) cs (omega arith) (omega arith), failed-le-recorded cs)
