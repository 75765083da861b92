-- ===== src/Circuit/Tests.antt =====
-- Runs of the circuit breaker at concrete inputs.
use agent_auth.Prelude.{
  ◌+◌, ◌<◌, ◌≡◌, refl, ◌⊎◌, true, false, none, some, [], ◌∷◌, arith, from_secs,
}
use agent_auth.Circuit.{
  CircuitBreakerConfig, config_of, DependencyCircuitBreaker, closed, opened, half_open, new,
  asks_permit, fails, run, is_call_permitted,
}
use agent_auth.Circuit.Invariant.{IsConfig, Inv, run-new-Inv}
use agent_auth.Circuit.Opening.{failures, opens_at_threshold, open_rejects}
use agent_auth.Circuit.Recovery.{successes, recovers}

-- Two failures within five seconds open it for ten seconds; one success closes it.
abbrev small : CircuitBreakerConfig
small = config_of "small" 2 5 10

small-IsConfig : IsConfig small
small-IsConfig = omega arith

run-new-Inv_example :
    Inv (run (new small 0) (fails 1 2 ∷ fails 3 4 ∷ asks_permit (from_secs 20) ∷ []))
run-new-Inv_example =
    run-new-Inv small 0 (fails 1 2 ∷ fails 3 4 ∷ asks_permit (from_secs 20) ∷ []) small-IsConfig

abbrev fresh : DependencyCircuitBreaker
fresh = record {
  config = small;
  state = closed;
  failure_count = 0;
  success_count = 0;
  window_start = 0;
  opened_at = none;
  total_calls = 0;
  total_failures = 0;
}

fresh-Inv : Inv fresh
fresh-Inv = ground arith

opens_at_threshold_example :
    ((fresh.failure_count + 2 < small.failure_threshold)
      × ((run fresh (failures ((1, 2) ∷ (3, 4) ∷ []))).state ≡ closed))
    ⊎ ((fresh.failure_count + 2 ≡ small.failure_threshold)
        × ((run fresh (failures ((1, 2) ∷ (3, 4) ∷ []))).state ≡ opened))
opens_at_threshold_example =
    opens_at_threshold fresh ((1, 2) ∷ (3, 4) ∷ []) small-IsConfig fresh-Inv refl (omega arith)
      (omega arith)

abbrev tripped : DependencyCircuitBreaker
tripped = record {
  config = small;
  state = opened;
  failure_count = 2;
  success_count = 0;
  window_start = 0;
  opened_at = some 4;
  total_calls = 2;
  total_failures = 2;
}

tripped-Inv : Inv tripped
tripped-Inv = ground arith

open_rejects_example :
    (is_call_permitted (run tripped (asks_permit 5 ∷ fails 6 7 ∷ [])) 100).1 ≡ false
open_rejects_example =
    open_rejects tripped 4 100 (asks_permit 5 ∷ fails 6 7 ∷ []) refl refl (omega arith)
      (omega arith)

recovers_example :
    let cb' = run tripped (successes (from_secs 11 ∷ [])) in
    ((is_call_permitted tripped (from_secs 11)).1 ≡ true)
    × (cb'.state ≡ closed)
    × (cb'.failure_count ≡ 0)
recovers_example =
    recovers tripped 4 (from_secs 11) [] small-IsConfig tripped-Inv refl refl (omega arith) refl

abbrev probing : DependencyCircuitBreaker
probing = record tripped { state = half_open }
