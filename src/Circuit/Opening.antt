-- ===== src/Circuit/Opening.antt =====
-- When a breaker opens, and what it refuses while it is open.
use agent_auth.Prelude.{
  ℕ, ◌+◌, ◌≤◌, ◌<◌, ◌≡◌, sym, subst, ◌↔◌, ◌⊎◌, inl, inr, false, some, List, [], ◌∷◌, map, arith,
  Option-cases, length, All, from_secs,
}
use agent_auth.Circuit.{
  closed, opened, DependencyCircuitBreaker, Call, asks_state, asks_permit, succeeds, fails,
  is_call_permitted, step, run,
}
use agent_auth.Circuit.Invariant.{IsConfig, Inv, config-step, step-Inv}

-- The last instant at which the failures counted since `window_start` are not forgotten.
abbrev pub window_end : DependencyCircuitBreaker → ℕ
window_end cb = cb.window_start + from_secs cb.config.failure_window_secs

-- A failure within the window counts, and opens the breaker when it is the last one allowed.
fails_in_window :
    (cb : DependencyCircuitBreaker) (now later : ℕ)
    → IsConfig cb.config
    → Inv cb
    → cb.state ≡ closed
    → now ≤ window_end cb
    → let cb' = step cb (fails now later) in
      (cb'.failure_count ≡ cb.failure_count + 1)
      × (cb'.window_start ≡ cb.window_start)
      × ((cb'.failure_count < cb.config.failure_threshold) × (cb'.state ≡ closed)
          ⊎ (cb'.failure_count ≡ cb.config.failure_threshold)
            × (cb'.state ≡ opened)
            × (cb'.opened_at ≡ some later))
unfolding step
fails_in_window cb now later v h c w = ground arith

-- Failures one after another, each at two readings of the clock.
abbrev pub failures : List (ℕ × ℕ) → List Call
failures = map (λ t. fails t.0 t.1)

-- With positive thresholds that fit 32 bits, a closed breaker that meets the invariant and sees only
-- failures, all within its window and no more than its threshold leaves, opens with the failure that
-- reaches the threshold, and is closed before.
pub opens_at_threshold :
    (cb : DependencyCircuitBreaker) (ts : List (ℕ × ℕ))
    → IsConfig cb.config
    → Inv cb
    → cb.state ≡ closed
    → All (λ t. t.0 ≤ window_end cb) ts
    → cb.failure_count + length ts ≤ cb.config.failure_threshold
    → ((cb.failure_count + length ts < cb.config.failure_threshold)
        × ((run cb (failures ts)).state ≡ closed))
      ⊎ ((cb.failure_count + length ts ≡ cb.config.failure_threshold)
          × ((run cb (failures ts)).state ≡ opened))
unfolding run
opens_at_threshold cb [] v h c w n = ground arith
opens_at_threshold cb ((now, later) ∷ []) v h c w n =
    ground (arith, fails_in_window cb now later v h c w.0)
opens_at_threshold cb ((now, later) ∷ t ∷ ts) v h c w n =
    let next = step cb (fails now later) in
    let f = fails_in_window cb now later v h c w.0 in
    let e = config-step cb (fails now later) in
    let still : next.state ≡ closed = ground (arith, e) in
    let same : window_end next ≡ window_end cb = ground (arith, e, f.1) in
    let rest =
      opens_at_threshold next (t ∷ ts) (subst IsConfig (sym e) v) (step-Inv cb _ v h) still
        (subst (λ x. All (λ (t : ℕ × ℕ). t.0 ≤ x) (t ∷ ts)) (sym same) w.1) (ground (arith, e)) in
    ground (arith, rest, e)

-- The instant that a call reads first.
abbrev pub time_of : Call → ℕ
time_of (asks_state now) = now
time_of (asks_permit now) = now
time_of (succeeds now) = now
time_of (fails now _) = now

-- The last instant at which a breaker that opened at `at` still waits.
abbrev pub wait_end : DependencyCircuitBreaker → ℕ → ℕ
wait_end cb at = at + from_secs cb.config.recovery_timeout_secs

step_waits :
    (cb : DependencyCircuitBreaker) (at : ℕ) (c : Call)
    → cb.state ≡ opened
    → cb.opened_at ≡ some at
    → time_of c ≤ wait_end cb at
    → ((step cb c).state ≡ opened) × ((step cb c).opened_at ≡ some at)
unfolding step
step_waits cb at (asks_state now) o a w = ground arith
step_waits cb at (asks_permit now) o a w = ground arith
step_waits cb at (succeeds now) o a w = ground arith
step_waits cb at (fails now later) o a w = ground arith

-- An open breaker refuses every call until its recovery timeout has passed, whatever is asked of
-- it or recorded meanwhile.
pub open_rejects :
    (cb : DependencyCircuitBreaker) (at now : ℕ) (cs : List Call)
    → cb.state ≡ opened
    → cb.opened_at ≡ some at
    → All (λ c. time_of c ≤ wait_end cb at) cs
    → now ≤ wait_end cb at
    → (is_call_permitted (run cb cs) now).1 ≡ false
unfolding run is_call_permitted
open_rejects cb at now [] o a w n = ground arith
open_rejects cb at now (c ∷ cs) o a w n =
    let s = step_waits cb at c o a w.0 in
    let same : wait_end (step cb c) at ≡ wait_end cb at = ground (arith, config-step cb c) in
    open_rejects (step cb c) at now cs s.0 s.1
      (subst (λ x. All (λ c'. time_of c' ≤ x) cs) (sym same) w.1) (omega (arith, same))

-- A breaker that meets the invariant refuses exactly when it is open and its recovery timeout has not passed.
pub is_call_permitted_iff :
    (cb : DependencyCircuitBreaker) (now : ℕ)
    → Inv cb
    → ((is_call_permitted cb now).1 ≡ false)
      ↔ ((cb.state ≡ opened) × ((at : ℕ) × (cb.opened_at ≡ some at) × (now ≤ wait_end cb at)))
unfolding is_call_permitted
is_call_permitted_iff cb now h = elim (Option-cases cb.opened_at) [
  | inl e ↦ ground arith
  | inr (at, e) ↦ (λ r. (ground arith, (at, e, ground arith)), λ p. ground arith)
]
