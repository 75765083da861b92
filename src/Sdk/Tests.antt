-- ===== src/Sdk/Tests.antt =====
-- Runs of the client library at concrete inputs.
use agent_auth.Prelude.{
  ℕ, ◌+◌, ◌-◌, ◌/◌, ◌%◌, false, some, [], ◌∷◌, arith, ltb, if◌then◌else◌, Result, ok, err,
}
use agent_auth.Core.Envelope.{Calendar, BehavioralEnvelope}
use agent_auth.Sdk.Error.{SdkError, timeout}
use agent_auth.Sdk.Retry.{Outcome, with_retry, with_retry-Outcome}
use agent_auth.Sdk.TokenCache as TokenCache
use agent_auth.Sdk.TokenCache.{CachedToken}
use agent_auth.Sdk.RateLimiter.{Governor, BehavioralRateLimiter}

-- An operation that times out until its third call.
abbrev third_time : ℕ → Result SdkError ℕ × ℕ
third_time n = if ltb n 2 then (err timeout, n + 1) else (ok n, n + 1)

with_retry-Outcome_example : Outcome third_time 3 0 (with_retry third_time 3 0)
with_retry-Outcome_example = with_retry-Outcome third_time 3 0 (omega arith)

abbrev pub token : CachedToken
token = record { token = "t"; jti = "j"; expires_at = 900; cached_at = 0; service_provider_id = 2 }

abbrev pub cache : TokenCache.TokenCache
cache = record { tokens = token ∷ []; refresh_window = 120 }

-- A limiter that counts its cells down.
abbrev pub countdown : Governor
countdown = record {
  Limiter = ℕ;
  direct = λ period_ms burst. burst;
  check = λ now cells. (ltb 0 cells, cells - 1);
}

abbrev pub hours : Calendar
hours = record {
  hour = λ t. t % 24;
  num_days_from_sunday = λ t. (t / 24) % 7;
  hour-lt = λ t. omega arith;
  num_days_from_sunday-lt = λ t. omega arith;
}

abbrev pub envelope : BehavioralEnvelope
envelope = record {
  max_requests_per_minute = 60;
  max_burst = 5;
  requires_human_online = false;
  human_confirmation_threshold = some 100;
  allowed_time_windows = [];
  max_session_duration_secs = 3600;
}

abbrev pub limiter : BehavioralRateLimiter countdown hours
limiter = record { envelope = envelope; limiter = 5 }
