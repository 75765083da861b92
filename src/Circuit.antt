-- ===== src/Circuit.antt =====
-- crates/registry/src/services/circuit_breaker.rs. The lock makes each call one step on the
-- breaker; every reading of `Instant::now()` is an argument. Log lines leave no trace.
pub mod Invariant
pub mod Collection
pub mod Opening
pub mod Recovery
pub mod Counters
mod Tests
use agent_auth.Prelude.{
  ℕ, ◌+◌, ◌-◌, ◌%◌, String, Bool, true, false, Option, none, some, List, [], ◌∷◌, ltb, leb,
  if◌then◌else◌, from_secs,
}

pub data CircuitState : Type 0 where
  closed opened half_open : CircuitState

pub record CircuitBreakerConfig : Type 0 where
  pub name : String
  pub failure_threshold : ℕ  -- u32
  pub failure_window_secs : ℕ  -- u64
  pub recovery_timeout_secs : ℕ  -- u64
  pub success_threshold : ℕ  -- u32

abbrev pub config_of : String → ℕ → ℕ → ℕ → CircuitBreakerConfig
config_of name failures window recovery = record {
  name = name;
  failure_threshold = failures;
  failure_window_secs = window;
  recovery_timeout_secs = recovery;
  success_threshold = 1;
}

unfoldable pub postgres_primary : CircuitBreakerConfig
postgres_primary = config_of "postgres_primary" 3 5 15

unfoldable pub postgres_replica : CircuitBreakerConfig
postgres_replica = config_of "postgres_replica" 3 5 10

unfoldable pub redis : CircuitBreakerConfig
redis = config_of "redis" 3 2 5

unfoldable pub kms_signing : CircuitBreakerConfig
kms_signing = config_of "kms_signing" 5 10 30

unfoldable pub kms_key_fetch : CircuitBreakerConfig
kms_key_fetch = config_of "kms_key_fetch" 3 30 60

unfoldable pub audit_write : CircuitBreakerConfig
audit_write = config_of "audit_write" 5 10 30

-- The breaker with its `CircuitBreakerInner` and its two atomic counters.
pub record DependencyCircuitBreaker : Type 0 where
  pub config : CircuitBreakerConfig
  pub state : CircuitState
  pub failure_count : ℕ  -- u32
  pub success_count : ℕ  -- u32
  pub window_start : ℕ
  pub opened_at : Option ℕ
  pub total_calls : ℕ  -- u64
  pub total_failures : ℕ  -- u64

abbrev pub u32_mod : ℕ
u32_mod = 4_294_967_296

abbrev pub u64_mod : ℕ
u64_mod = 18_446_744_073_709_551_616

unfoldable pub new : CircuitBreakerConfig → ℕ → DependencyCircuitBreaker
new config now = record {
  config = config;
  state = closed;
  failure_count = 0;
  success_count = 0;
  window_start = now;
  opened_at = none;
  total_calls = 0;
  total_failures = 0;
}

-- `duration_since` is zero for a later instant, as the difference on ℕ is.
update_closed : DependencyCircuitBreaker → ℕ → DependencyCircuitBreaker
update_closed cb now =
    if ltb (from_secs cb.config.failure_window_secs) (now - cb.window_start)
    then record cb { failure_count = 0; window_start = now }
    else cb

update_open : DependencyCircuitBreaker → Option ℕ → ℕ → DependencyCircuitBreaker
update_open cb none now = cb
update_open cb (some at) now =
    if ltb (from_secs cb.config.recovery_timeout_secs) (now - at)
    then record cb { state = half_open; success_count = 0 }
    else cb

update_by : CircuitState → DependencyCircuitBreaker → ℕ → DependencyCircuitBreaker
unfolding update_closed update_open
update_by closed cb now = update_closed cb now
update_by opened cb now = update_open cb cb.opened_at now
update_by half_open cb now = cb

unfoldable pub update_state : DependencyCircuitBreaker → ℕ → DependencyCircuitBreaker
unfolding update_by
update_state cb now = update_by cb.state cb now

-- `state()`: the state after the update.
unfoldable pub state : DependencyCircuitBreaker → ℕ → DependencyCircuitBreaker × CircuitState
unfolding update_state
state cb now = let cb' = update_state cb now in (cb', cb'.state)

permits : CircuitState → Bool
permits opened = false
permits closed = true
permits half_open = true

unfoldable pub is_call_permitted : DependencyCircuitBreaker → ℕ → DependencyCircuitBreaker × Bool
unfolding update_state permits
is_call_permitted cb now = let cb' = update_state cb now in (cb', permits cb'.state)

succeed : CircuitState → DependencyCircuitBreaker → DependencyCircuitBreaker
succeed closed cb = record cb { failure_count = 0 }
succeed half_open cb =
    let count = (cb.success_count + 1) % u32_mod in
    if leb cb.config.success_threshold count
    then record cb { state = closed; failure_count = 0; success_count = 0; opened_at = none }
    else record cb { success_count = count }
succeed opened cb = cb

unfoldable pub record_success : DependencyCircuitBreaker → ℕ → DependencyCircuitBreaker
unfolding update_state succeed
record_success cb now =
    let counted = record cb { total_calls = (cb.total_calls + 1) % u64_mod } in
    let updated = update_state counted now in succeed updated.state updated

-- `later` is the second reading of the clock, for `opened_at`.
fail : CircuitState → DependencyCircuitBreaker → ℕ → DependencyCircuitBreaker
fail closed cb later =
    let count = (cb.failure_count + 1) % u32_mod in
    if leb cb.config.failure_threshold count
    then record cb { failure_count = count; state = opened; opened_at = some later }
    else record cb { failure_count = count }
fail half_open cb later = record cb { state = opened; success_count = 0; opened_at = some later }
fail opened cb later = cb

unfoldable pub record_failure : DependencyCircuitBreaker → ℕ → ℕ → DependencyCircuitBreaker
unfolding update_state fail
record_failure cb now later =
    let counted = record cb {
      total_calls = (cb.total_calls + 1) % u64_mod;
      total_failures = (cb.total_failures + 1) % u64_mod;
    } in
    let updated = update_state counted now in fail updated.state updated later

-- One call on a breaker, with what it reads of the clock.
pub data Call : Type 0 where
  asks_state asks_permit succeeds : ℕ → Call
  fails : ℕ → ℕ → Call

unfoldable pub step : DependencyCircuitBreaker → Call → DependencyCircuitBreaker
unfolding state is_call_permitted record_success record_failure
step cb (asks_state now) = (state cb now).0
step cb (asks_permit now) = (is_call_permitted cb now).0
step cb (succeeds now) = record_success cb now
step cb (fails now later) = record_failure cb now later

unfoldable pub run : DependencyCircuitBreaker → List Call → DependencyCircuitBreaker
run cb [] = cb
run cb (c ∷ cs) = run (step cb c) cs
