-- ===== src/Sdk/Client.antt =====
-- crates/sdk/src/client.rs: the client of the registry, over its token cache, its rate limiters and the
-- retry loop. The server with the network in between is a parameter: a state, and a function that sends
-- a request. DPoP proofs come from a generator, a parameter too. Texts of URLs are left out.
pub mod Tokens
pub mod Errors
mod Tests
use Prim.Native.String.{◌++◌ as str_append}
use agent_auth.Prelude.{
  ℕ, String, Bool, false, not, ◌&&◌, Option, none, some, List, [], ◌∷◌, ltb, leb, ◌==◌, str_eq,
  if◌then◌else◌, keep, Result, ok, err,
}
use agent_auth.Core.Capability.{Capability}
use agent_auth.Core.Envelope.{Calendar, BehavioralEnvelope}
use agent_auth.Registry.Response.{Fields}
use agent_auth.Sdk.Error.{
  SdkError, registry_error, grant_denied, grant_pending, grant_expired, agent_revoked,
  token_expired, serialization_error, capability_not_granted, internal_error,
}
use agent_auth.Sdk.Retry.{with_retry}
use agent_auth.Sdk.TokenCache
use agent_auth.Sdk.TokenCache.{CachedToken, TokenCache}
use agent_auth.Sdk.RateLimiter
use agent_auth.Sdk.RateLimiter.{Governor, BehavioralRateLimiter}

pub record TokenResponse : Type 0 where
  pub access_token : String
  pub jti : String
  pub expires_at : ℕ

pub record GrantResponse : Type 0 where
  pub grant_id : String
  pub status : String
  pub granted_capabilities : Option (List Capability)
  pub behavioral_envelope : Option BehavioralEnvelope

pub record ErrorResponse : Type 0 where
  pub code : String
  pub error : String

pub record CapabilityGrant : Type 0 where
  pub grant_id : String
  pub service_provider_id : ℕ
  pub capabilities : List Capability
  pub envelope : BehavioralEnvelope

-- A response: its status, what its body parses to as a grant or a token, and its fields as a JSON
-- object, where it is one.
pub record Response : Type 0 where
  pub status : ℕ
  pub as_grant : Option GrantResponse
  pub as_token : Option TokenResponse
  pub fields : Option Fields

abbrev pub is_success : ℕ → Bool
is_success status = leb 200 status && ltb status 300

abbrev pub field : String → Fields → Option String
field name [] = none
field name ((k, v) ∷ rest) = if str_eq k name then some v else field name rest

abbrev with_error : String → Option String → Option ErrorResponse
with_error code none = none
with_error code (some e) = some (record { code = code; error = e })

abbrev with_code : Option String → Option String → Option ErrorResponse
with_code none e = none
with_code (some c) e = with_error c e

-- `json::<ErrorResponse>()`: both fields are needed, others are passed over.
unfoldable pub parse_error : Option Fields → Option ErrorResponse
parse_error none = none
parse_error (some fs) = with_code (field "code" fs) (field "error" fs)

abbrev or_unknown : Option ErrorResponse → ErrorResponse
or_unknown none = record { code = "UNKNOWN"; error = "Unknown error" }
or_unknown (some e) = e

abbrev by_code : ErrorResponse → ℕ → SdkError
by_code e status =
    if str_eq e.code "GRANT_DENIED"
    then grant_denied e.error
    else (if str_eq e.code "GRANT_PENDING"
        then grant_pending e.error
        else (if str_eq e.code "AGENT_REVOKED"
            then agent_revoked e.error
            else (if str_eq e.code "TOKEN_EXPIRED"
                then token_expired
                else registry_error e.code e.error status)))

unfoldable pub handle_error_response : Option Fields → ℕ → SdkError
unfolding parse_error
handle_error_response fields status = by_code (or_unknown (parse_error fields)) status

abbrev parsed : {A : Type 0} → Option A → Result SdkError A
parsed none = err (serialization_error "Failed to parse response")
parsed (some a) = ok a

unfoldable pub handle_json_response :
    {A : Type 0} → (Response → Option A) → Response → Result SdkError A
unfolding handle_error_response
handle_json_response parse r =
    if is_success r.status then parsed (parse r) else err (handle_error_response r.fields r.status)

-- A map of the client, with no two entries for one provider.
module _ {A : Type 0} where
  abbrev pub entry : ℕ → List (ℕ × A) → Option A
  entry sp [] = none
  entry sp ((k, a) ∷ rest) = if k == sp then some a else entry sp rest

  abbrev pub insert : ℕ → A → List (ℕ × A) → List (ℕ × A)
  insert sp a entries = (sp, a) ∷ keep (λ e. not (e.0 == sp)) entries

-- The fields of `SdkConfig` that the client reads.
pub record SdkConfig : Type 0 where
  pub max_attempts : ℕ
  pub refresh_before_expiry : ℕ

-- A request to the registry.
pub data Request : Type 0 where
  grants_request : ℕ → List Capability → BehavioralEnvelope → Request
  tokens_issue : (grant_id proof : String) → Request

module _ (g : Governor) (cal : Calendar) (Server : Type 0)
    (send : Request → Server → Result SdkError Response × Server) (config : SdkConfig) where
  pub record AgentAuthClient : Type 0 where
    pub token_cache : TokenCache
    pub rate_limiters : List (ℕ × BehavioralRateLimiter g cal)
    pub grants : List (ℕ × CapabilityGrant)
    pub server : Server

  -- A method of the client, and `?` as its bind.
  abbrev pub Method : Type 0 → Type 0
  Method A = AgentAuthClient → Result SdkError A × AgentAuthClient

  abbrev then_do :
      {A B : Type 0}
      → Result SdkError A
      → AgentAuthClient
      → (A → Method B)
      → Result SdkError B × AgentAuthClient
  then_do (ok a) c f = f a c
  then_do (err e) c f = (err e, c)

  infixl 5 ◌>>=◌ ◌>>◌
  abbrev pub ◌>>=◌ : {A B : Type 0} → Method A → (A → Method B) → Method B
  ◌>>=◌ m f c = then_do (m c).0 (m c).1 f

  abbrev pub ◌>>◌ : {B : Type 0} → Method (Unit {0}) → Method B → Method B
  m >> k = m >>= λ _. k

  abbrev pub return : {A : Type 0} → A → Method A
  return a c = (ok a, c)

  abbrev pub fail : {A : Type 0} → SdkError → Method A
  fail e c = (err e, c)

  abbrev pub lift : {A : Type 0} → Result SdkError A → Method A
  lift r c = (r, c)

  -- The request in the retry loop.
  abbrev pub request : Request → Method Response
  request q c =
      let r = with_retry (send q) config.max_attempts c.server in (r.0, record c { server = r.1 })

  store_grant : CapabilityGrant → BehavioralRateLimiter g cal → Method CapabilityGrant
  store_grant grant limiter c = (
    ok grant,
    record c {
      grants = insert grant.service_provider_id grant c.grants;
      rate_limiters = insert grant.service_provider_id limiter c.rate_limiters;
    },
  )

  approved_grant :
      ℕ → String → Option (List Capability) → Option BehavioralEnvelope → Method CapabilityGrant
  unfolding store_grant
  approved_grant sp grant_id none envelope =
      fail (internal_error "Approved grant missing capabilities")
  approved_grant sp grant_id (some caps) none =
      fail (internal_error "Approved grant missing envelope")
  approved_grant sp grant_id (some caps) (some envelope) =
      lift (RateLimiter.new g cal envelope)
      >>= store_grant (record {
        grant_id = grant_id;
        service_provider_id = sp;
        capabilities = caps;
        envelope = envelope;
      })

  by_status : ℕ → GrantResponse → Method CapabilityGrant
  unfolding approved_grant
  by_status sp r =
      if str_eq r.status "approved"
      then approved_grant sp r.grant_id r.granted_capabilities r.behavioral_envelope
      else (if str_eq r.status "pending"
          then fail (grant_pending r.grant_id)
          else (if str_eq r.status "denied"
              then fail (grant_denied "Grant request denied")
              else (if str_eq r.status "expired"
                  then fail (grant_expired r.grant_id)
                  else fail (internal_error (str_append "Unknown grant status: " r.status)))))

  unfoldable pub request_grant : ℕ → List Capability → BehavioralEnvelope → Method CapabilityGrant
  unfolding by_status
  request_grant sp caps envelope = do
    response ← request (grants_request sp caps envelope)
    grant ← lift (handle_json_response (λ r. r.as_grant) response)
    by_status sp grant

  abbrev granted : Option CapabilityGrant → Method CapabilityGrant
  granted none = fail (capability_not_granted "No grant for service provider")
  granted (some x) = return x

  -- `generate` makes the proof for the request, `now` is when the token is cached.
  unfoldable pub issue_token : ℕ → (proof : Result SdkError String) → (now : ℕ) → Method String
  issue_token sp proof now = do
    grant ← λ c. granted (entry sp c.grants) c
    dpop ← lift proof
    response ← request (tokens_issue grant.grant_id dpop)
    token ← lift (handle_json_response (λ r. r.as_token) response)
    (λ c. (
      ok token.access_token,
      record c {
        token_cache =
            TokenCache.put
              (record {
                token = token.access_token;
                jti = token.jti;
                expires_at = token.expires_at;
                cached_at = now;
                service_provider_id = sp;
              })
              c.token_cache;
      },
    ))

  -- The background refresh, a method with an empty body, leaves no trace.
  from_cache :
      ℕ
      → (proof : Result SdkError String) → (refresh_at expiry_at cached_at : ℕ) → Option CachedToken
      → Method String
  unfolding issue_token
  from_cache sp proof refresh_at expiry_at cached_at none = issue_token sp proof cached_at
  from_cache sp proof refresh_at expiry_at cached_at (some x) =
      if not (TokenCache.should_refresh x config.refresh_before_expiry refresh_at)
      then return x.token
      else (if not (TokenCache.is_expired x expiry_at)
          then return x.token
          else issue_token sp proof cached_at)

  -- Each reading of the clock is an argument.
  unfoldable pub get_token :
      ℕ
      → (proof : Result SdkError String) → (now refresh_at expiry_at cached_at : ℕ) → Method String
  unfolding from_cache
  get_token sp proof now refresh_at expiry_at cached_at c =
      from_cache sp proof refresh_at expiry_at cached_at (TokenCache.get sp now c.token_cache) c

  checked : ℕ → (now limiter_now : ℕ) → Option (BehavioralRateLimiter g cal) → Method (Unit {0})
  checked sp now limiter_now none c = (ok tt, c)
  checked sp now limiter_now (some l) c =
      let r = RateLimiter.check g cal false none now limiter_now l in
      (r.0, record c { rate_limiters = insert sp r.1 c.rate_limiters })

  -- The token and the proof, once both are headers: `header` is `HeaderValue::from_str`.
  unfoldable pub authenticate_request :
      ℕ
      → (header : String → Bool) → (proof : Result SdkError String)
      → (generate : String → Result SdkError String)
      → (checked_at limiter_now now refresh_at expiry_at cached_at : ℕ) → Method (String × String)
  unfolding checked get_token
  authenticate_request sp header proof generate checked_at limiter_now now refresh_at expiry_at
        cached_at =
      do
        (λ c. checked sp checked_at limiter_now (entry sp c.rate_limiters) c)
        token ← get_token sp proof now refresh_at expiry_at cached_at
        dpop ← lift (generate token)
        if header (str_append "AgentBearer " token)
            then return tt
            else fail (internal_error "Invalid token format")
        if header dpop then return tt else fail (internal_error "Invalid DPoP format")
        return (str_append "AgentBearer " token, dpop)
