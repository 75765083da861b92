-- ===== src/Sdk/Client/Tests.antt =====
-- Runs of the client at concrete inputs.
use agent_auth.Prelude.{
  ℕ, ◌+◌, String, ◌≡◌, refl, ◌⊎◌, true, none, some, [], ◌∷◌, ◌==◌, if◌then◌else◌, Result, ok, err,
}
use agent_auth.Registry.Error.{RegistryError, grant_not_approved}
use agent_auth.Registry.Response.{into_response}
use agent_auth.Sdk.Error.{
  SdkError, registry_error, timeout, time_window_restriction, human_confirmation_required,
}
use agent_auth.Sdk.TokenCache as TokenCache
use agent_auth.Sdk.TokenCache.{CachedToken}
use agent_auth.Sdk.RateLimiter.{BehavioralRateLimiter}
use agent_auth.Sdk.Tests.{cache, countdown, hours, envelope, limiter}
use agent_auth.Sdk.Client.{
  Response, SdkConfig, Request, AgentAuthClient, CapabilityGrant, get_token, issue_token,
  authenticate_request, handle_json_response,
}
use agent_auth.Sdk.Client.Errors.{errors_unknown, online_never}
use agent_auth.Sdk.Client.Tokens.{Issued, get_token_sources}

abbrev answer : Response
answer = record {
  status = 200;
  as_grant = none;
  as_token = some (record { access_token = "new"; jti = "k"; expires_at = 5000 });
  fields = none;
}

-- A server that counts the requests and times out on the first.
abbrev send : Request → ℕ → Result SdkError Response × ℕ
send q n = if n == 0 then (err timeout, n + 1) else (ok answer, n + 1)

abbrev settings : SdkConfig
settings = record { max_attempts = 3; refresh_before_expiry = 120 }

abbrev grant : CapabilityGrant
grant = record {
  grant_id = "5";
  service_provider_id = 2;
  capabilities = [];
  envelope = record envelope { requires_human_online = true };
}

abbrev watched : BehavioralRateLimiter countdown hours
watched = record limiter { envelope = grant.envelope }

-- The cached token expires at 900.
abbrev client : AgentAuthClient countdown hours ℕ send settings
client = record {
  token_cache = cache;
  rate_limiters = (2, watched) ∷ [];
  grants = (2, grant) ∷ [];
  server = 0;
}

abbrev ask :
    AgentAuthClient countdown hours ℕ send settings
    → Result SdkError String × AgentAuthClient countdown hours ℕ send settings
ask = get_token countdown hours ℕ send settings 2 (ok "proof") 1000 1000 1000 1001

asks-new : (ask client).0 ≡ ok "new"
unfolding get_token TokenCache.get issue_token agent_auth.Sdk.Retry.with_retry handle_json_response
    agent_auth.Sdk.Error.is_transient
asks-new = refl

get_token_sources_example :
    ((x : CachedToken) × (TokenCache.get 2 1000 client.token_cache ≡ some x)
      × ("new" ≡ x.token)
      × ((ask client).1 ≡ client))
    ⊎ Issued countdown hours ℕ send settings 2 1001 client "new" (ask client).1
get_token_sources_example =
    get_token_sources countdown hours ℕ send settings 2 (ok "proof") 1000 1000 1000 1001 client
      "new" asks-new

online_never_example :
    let r =
      authenticate_request countdown hours ℕ send settings 2
        (λ s. true)
        (ok "proof")
        (λ s. ok "proof")
        1
        2
        3
        4
        5
        6
        client in
    ((r.0 ≡ err time_window_restriction) ⊎ (r.0 ≡ err human_confirmation_required))
    × (r.1.server ≡ client.server)
    × (r.1.token_cache ≡ client.token_cache)
online_never_example =
    online_never countdown hours ℕ send settings 2 (λ s. true) (ok "proof") (λ s. ok "proof") 1 2 3
      4 5 6 client watched refl refl

abbrev text : RegistryError → String
text e = "message"

abbrev digits : ℕ → String
digits n = "60"

abbrev refusal : Response
refusal = record {
  status = (into_response text digits (grant_not_approved 5)).0;
  as_grant = none;
  as_token = none;
  fields = some (into_response text digits (grant_not_approved 5)).1;
}

errors_unknown_example :
    handle_json_response (λ r. r.as_token) refusal
    ≡ err (
        registry_error "UNKNOWN" "Unknown error"
          (into_response text digits (grant_not_approved 5)).0)
errors_unknown_example =
    errors_unknown text digits (λ r. r.as_token) (grant_not_approved 5) refusal refl refl
