-- ===== src/Sdk/RateLimiter.antt =====
-- crates/sdk/src/rate_limiter.rs: the client's own check of its behavioral envelope. The limiter of the
-- crate governor is a parameter: a state, and a check that may take one cell from it.
use agent_auth.Prelude.{
  ℕ, ◌/◌, max, ◌≡◌, ◌≢◌, ◌↔◌, Bool, true, false, not, ◌&&◌, Option, none, some, arith, ltb, ◌==◌,
  if◌then◌else◌, Result, ok, err, is_ok,
}
use agent_auth.Core.Error.{CoreError}
use agent_auth.Core.Envelope as Envelope
use agent_auth.Core.Envelope.{Calendar, BehavioralEnvelope, is_allowed_at_time}
use agent_auth.Core.Envelope.Validity as EnvelopeValidity
use agent_auth.Sdk.Error.{
  SdkError, time_window_restriction, human_confirmation_required, rate_limit_exceeded, config_error,
}

-- `RateLimiter::direct` with a period in milliseconds and a burst, and its check at an instant.
pub record Governor : Type 1 where
  pub Limiter : Type 0
  pub direct : (period_ms burst : ℕ) → Limiter
  pub check : (now : ℕ) → Limiter → Bool × Limiter

module _ (g : Governor) (cal : Calendar) where
  pub record BehavioralRateLimiter : Type 0 where
    pub envelope : BehavioralEnvelope
    pub limiter : g.Limiter

  -- The quotient of two floats that are exact integers below 2^32 truncates to that on ℕ.
  abbrev pub replenish_period_ms : BehavioralEnvelope → ℕ
  replenish_period_ms e = 60000 / e.max_requests_per_minute

  made : BehavioralEnvelope → Result CoreError (Unit {0}) → Result SdkError BehavioralRateLimiter
  made e (err _) = err (config_error "Invalid envelope")
  made e (ok _) =
      if e.max_burst == 0
      then err (config_error "max_burst cannot be zero")
      else ok
          (record { envelope = e; limiter = g.direct (max (replenish_period_ms e) 1) e.max_burst })

  unfoldable pub new : BehavioralEnvelope → Result SdkError BehavioralRateLimiter
  unfolding made
  new e = made e (Envelope.validate e)

  -- Whether a transaction is above the threshold that asks for the person.
  abbrev pub above : Option ℕ → Option ℕ → Bool
  above none value = false
  above (some threshold) none = false
  above (some threshold) (some value) = ltb threshold value

  took :
      BehavioralRateLimiter → Bool × g.Limiter → Result SdkError (Unit {0}) × BehavioralRateLimiter
  took l (true, rest) = (ok tt, record l { limiter = rest })
  took l (false, rest) =
      (err (rate_limit_exceeded "Exceeded requests per minute"), record l { limiter = rest })

  unfoldable pub check :
      Bool
      → Option ℕ
      → (now limiter_now : ℕ) → BehavioralRateLimiter
      → Result SdkError (Unit {0}) × BehavioralRateLimiter
  unfolding took
  check human_present value now limiter_now l =
      if not (is_allowed_at_time cal l.envelope now)
      then (err time_window_restriction, l)
      else (if l.envelope.requires_human_online && not human_present
          then (err human_confirmation_required, l)
          else (if above l.envelope.human_confirmation_threshold value && not human_present
              then (err human_confirmation_required, l)
              else took l (g.check limiter_now l.limiter)))

  unfoldable pub would_allow : Bool → Option ℕ → ℕ → BehavioralRateLimiter → Bool
  would_allow human_present value now l =
      if not (is_allowed_at_time cal l.envelope now)
      then false
      else (if l.envelope.requires_human_online && not human_present
          then false
          else not (above l.envelope.human_confirmation_threshold value && not human_present))

  unfoldable pub remaining : BehavioralRateLimiter → ℕ
  remaining l = l.envelope.max_burst

  took_iff :
      (l : BehavioralRateLimiter) (r : Bool × g.Limiter) → ((took l r).0 ≡ ok tt) ↔ (r.0 ≡ true)
  unfolding took
  took_iff l (true, rest) = ground arith
  took_iff l (false, rest) = ground arith

  made_ok :
      (e : BehavioralEnvelope) (c : Result CoreError (Unit {0}))
      → (e.max_burst ≡ 0 → c ≢ ok tt)
      → (is_ok (made e c) ≡ true) ↔ (c ≡ ok tt)
  unfolding made
  made_ok e (ok _) p = ground arith
  made_ok e (err x) p = ground arith

  -- A limiter is made exactly for a valid envelope.
  pub new_iff : (e : BehavioralEnvelope) → (is_ok (new e) ≡ true) ↔ EnvelopeValidity.IsValid e
  unfolding new
  new_iff e =
      let v = EnvelopeValidity.envelope_validate_iff e in
      let m = made_ok e (Envelope.validate e) (λ z c. ground (arith, (v.0 c).burst_pos)) in
      (λ x. v.0 (m.0 x), λ i. m.1 (v.1 i))

  -- A check succeeds exactly when the preflight check would allow it at the same instant and the
  -- limiter admits it; where the preflight check would not, nothing is taken from the limiter.
  pub check_iff :
      (human_present : Bool) (value : Option ℕ) (now limiter_now : ℕ) (l : BehavioralRateLimiter)
      → (((check human_present value now limiter_now l).0 ≡ ok tt) ↔ (
          (would_allow human_present value now l ≡ true)
          × ((g.check limiter_now l.limiter).0 ≡ true)))
        × (would_allow human_present value now l ≡ false
            → (check human_present value now limiter_now l).1 ≡ l)
  unfolding check would_allow
  check_iff human_present value now limiter_now l =
      ground (arith, took_iff l (g.check limiter_now l.limiter))
