-- ===== src/Circuit/Recovery.antt =====
-- How a breaker that opened closes again, or reopens.
use agent_auth.Prelude.{
  ℕ, ◌+◌, ◌≤◌, ◌<◌, ◌≡◌, refl, sym, subst, ◌⊎◌, true, false, none, some, List, [], ◌∷◌, map, arith,
  length, All,
}
use agent_auth.Circuit.{
  closed, opened, half_open, DependencyCircuitBreaker, Call, succeeds, is_call_permitted,
  record_failure, step, run,
}
use agent_auth.Circuit.Invariant.{IsConfig, Inv, config-step, step-Inv}
use agent_auth.Circuit.Opening.{wait_end, open_rejects, time_of}

-- Successes one after another.
abbrev pub successes : List ℕ → List Call
successes = map succeeds

succeeds_half_open :
    (cb : DependencyCircuitBreaker) (now : ℕ)
    → IsConfig cb.config
    → Inv cb
    → cb.state ≡ half_open
    → let cb' = step cb (succeeds now) in
      ((cb.success_count + 1 < cb.config.success_threshold)
        × (cb'.state ≡ half_open)
        × (cb'.success_count ≡ cb.success_count + 1))
      ⊎ ((cb.success_count + 1 ≡ cb.config.success_threshold)
          × (cb'.state ≡ closed)
          × (cb'.failure_count ≡ 0)
          × (cb'.opened_at ≡ none))
unfolding step
succeeds_half_open cb now v h o = ground arith

half_open_closes :
    (cb : DependencyCircuitBreaker) (ts : List ℕ)
    → IsConfig cb.config
    → Inv cb
    → cb.state ≡ half_open
    → cb.success_count + length ts ≡ cb.config.success_threshold
    → let cb' = run cb (successes ts) in (cb'.state ≡ closed) × (cb'.failure_count ≡ 0)
unfolding run
half_open_closes cb [] v h o n = ground arith
half_open_closes cb (t ∷ []) v h o n = ground (arith, succeeds_half_open cb t v h o)
half_open_closes cb (t ∷ u ∷ ts) v h o n =
    let next = step cb (succeeds t) in
    let f = succeeds_half_open cb t v h o in
    let e = config-step cb (succeeds t) in
    half_open_closes next (u ∷ ts) (subst IsConfig (sym e) v) (step-Inv cb _ v h)
      (ground (arith, e)) (ground (arith, e))

opened_first :
    (cb : DependencyCircuitBreaker) (at t : ℕ) (cs : List Call)
    → cb.state ≡ opened
    → cb.opened_at ≡ some at
    → wait_end cb at < t
    → run cb (succeeds t ∷ cs)
      ≡ run (record cb { state = half_open; success_count = 0 }) (succeeds t ∷ cs)
unfolding run step
opened_first cb at t cs o a w = ground arith

-- With positive thresholds that fit 32 bits, an open breaker that meets the invariant and whose recovery timeout has passed lets a call through, and is closed, with no
-- failure counted, once as many successes in a row are recorded as its success threshold asks.
pub recovers :
    (cb : DependencyCircuitBreaker) (at t : ℕ) (ts : List ℕ)
    → IsConfig cb.config
    → Inv cb
    → cb.state ≡ opened
    → cb.opened_at ≡ some at
    → wait_end cb at < t
    → length (t ∷ ts) ≡ cb.config.success_threshold
    → let cb' = run cb (successes (t ∷ ts)) in
      ((is_call_permitted cb t).1 ≡ true) × (cb'.state ≡ closed) × (cb'.failure_count ≡ 0)
unfolding run is_call_permitted
recovers cb at t ts v h o a w n =
    let probing : DependencyCircuitBreaker = record cb { state = half_open; success_count = 0 } in
    let i : Inv probing = ground arith in
    let r = half_open_closes probing (t ∷ ts) v i refl (omega arith) in
    let e = opened_first cb at t (successes ts) o a w in
    (ground arith, ground (arith, e, r), ground (arith, e, r))

-- One failure while a breaker probes opens it again, and it refuses every call until the recovery
-- timeout has passed once more.
pub half_open_failure_rejects :
    (cb : DependencyCircuitBreaker) (now later t : ℕ) (cs : List Call)
    → cb.state ≡ half_open
    → All (λ c. time_of c ≤ wait_end cb later) cs
    → t ≤ wait_end cb later
    → (is_call_permitted (run (record_failure cb now later) cs) t).1 ≡ false
unfolding record_failure
half_open_failure_rejects cb now later t cs o w n =
    open_rejects (record_failure cb now later) later t cs (ground arith) (ground arith)
      (subst (λ x. All (λ c. time_of c ≤ x) cs) (ground arith) w) (ground arith)
