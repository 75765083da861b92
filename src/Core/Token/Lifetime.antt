-- ===== src/Core/Token/Lifetime.antt =====
-- The life of an accepted token: fresh, then due for refresh, then expired.
use agent_auth.Prelude.{
  ℕ, ◌+◌, ◌≤◌, ◌<◌, ◌≡◌, ◌↔◌, true, false, arith, ok, nanos_per_sec, from_secs,
}
use agent_auth.Core.Token.{AgentAccessToken, is_expired, should_refresh, validate}
use agent_auth.Core.Token.Validity.{token_validate_iff}

-- A token is due for refresh and not yet expired exactly in its last 120 seconds, and once it is
-- expired it is due for refresh.
pub refresh_window :
    (t : AgentAccessToken) (now : ℕ)
    → (((should_refresh t now ≡ true) × (is_expired t now ≡ false))
        ↔ ((t.expires_at ≤ now + from_secs 120) × (now < t.expires_at)))
      × (is_expired t now ≡ true → should_refresh t now ≡ true)
unfolding should_refresh is_expired
refresh_window t now = ground arith

-- An accepted token is not expired for its first second, and is expired from 901 seconds on.
pub lifetime_bounded :
    (t : AgentAccessToken) (now : ℕ)
    → validate t ≡ ok tt
    → (now < t.issued_at + nanos_per_sec → is_expired t now ≡ false)
      × (t.issued_at + from_secs 901 ≤ now → is_expired t now ≡ true)
unfolding is_expired
lifetime_bounded t now h = let v = (token_validate_iff t).0 h in ground arith
