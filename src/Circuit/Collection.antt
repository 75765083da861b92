-- ===== src/Circuit/Collection.antt =====
-- crates/registry/src/services/circuit_breaker.rs: the collection of the six breakers.
use agent_auth.Prelude.{ℕ, String, ◌≡◌, refl, List, [], ◌∷◌, map, arith}
use agent_auth.Circuit as Circuit
use agent_auth.Circuit.{
  CircuitState, closed, DependencyCircuitBreaker, postgres_primary, postgres_replica, redis,
  kms_signing, kms_key_fetch, audit_write, state, update_state, update_by, update_closed,
  CircuitBreakerConfig,
}

pub record CircuitBreakers : Type 0 where
  pub primary : DependencyCircuitBreaker
  pub replica : DependencyCircuitBreaker
  pub cache : DependencyCircuitBreaker
  pub signing : DependencyCircuitBreaker
  pub key_fetch : DependencyCircuitBreaker
  pub audit : DependencyCircuitBreaker

-- `now` is the reading of the clock of each, taken as one.
unfoldable pub new : ℕ → CircuitBreakers
new now = record {
  primary = Circuit.new postgres_primary now;
  replica = Circuit.new postgres_replica now;
  cache = Circuit.new redis now;
  signing = Circuit.new kms_signing now;
  key_fetch = Circuit.new kms_key_fetch now;
  audit = Circuit.new audit_write now;
}

abbrev named : DependencyCircuitBreaker → ℕ → String × CircuitState
named b now = (b.config.name, (state b now).1)

-- The names and the states, each updated on the way.
unfoldable pub all_states : ℕ → CircuitBreakers → CircuitBreakers × List (String × CircuitState)
all_states now b = (
  record {
    primary = (state b.primary now).0;
    replica = (state b.replica now).0;
    cache = (state b.cache now).0;
    signing = (state b.signing now).0;
    key_fetch = (state b.key_fetch now).0;
    audit = (state b.audit now).0;
  },
  named b.primary now
      ∷ named b.replica now
      ∷ named b.cache now
      ∷ named b.signing now
      ∷ named b.key_fetch now
      ∷ named b.audit now
      ∷ [],
)

named-new :
    (config : CircuitBreakerConfig) (now later : ℕ)
    → named (Circuit.new config now) later ≡ (config.name, closed)
unfolding Circuit.new state update_state update_by update_closed
named-new config now later = ground arith

-- A new collection reports every dependency under its name, as closed, at any later reading.
all_states-new :
    (now later : ℕ)
    → (all_states later (new now)).1
      ≡ map
          (λ name. (name, closed))
          ("postgres_primary" ∷ "postgres_replica" ∷ "redis" ∷ "kms_signing" ∷ "kms_key_fetch"
            ∷ "audit_write" ∷ [])
unfolding all_states new postgres_primary postgres_replica redis kms_signing kms_key_fetch
    audit_write
all_states-new now later =
    rw
      (
        named-new postgres_primary now later,
        named-new postgres_replica now later,
        named-new redis now later,
        named-new kms_signing now later,
        named-new kms_key_fetch now later,
        named-new audit_write now later,
      )
      refl
